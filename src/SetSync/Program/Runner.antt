-- ===== src/SetSync/Program/Runner.antt =====
-- A command runner with sets of one type, for which the documented laws hold: it answers `list`,
-- `add` and `del` from a map of names to members.
use enn_policy.Prelude.{
  ℕ, ◌≡◌, ◌≢◌, refl, sym, ap, Bool, true, false, ◌&&◌, Option, none, some, List, [], ◌∷◌, ◌++◌, Str,
  str, str_key, if◌then◌else◌, arith, Bool-cases, inl, inr, Str-discrete, ℕ_discrete,
}
use enn_policy.GoMap.{get, put, get-put}
use enn_policy.Types.{str_equal}
use enn_policy.Strings.Split.{Lacks}
use enn_policy.IpSet.{newline}
use enn_policy.IpSet.Listing.{AreLines, AreMembers}
use enn_policy.IpSet.Reading.{split_colon}
use enn_policy.IpSet.Reading.Header.{Listing, listing_text, IsListing, IsWhole}
use enn_policy.SetSync.Laws.{mem, All}
use enn_policy.SetSync.Kernel.{Kernel, members_of, has, without, mem-without}
use enn_policy.SetSync.Program.{RunnerLaws}

abbrev pub listing_of : Str → List Str → Listing
listing_of type ms = record {
  type = type;
  revision = str "4";
  family = str "inet";
  hash_size = str "1024";
  max_elem = str "65536";
  memory = str "448";
  references = str "1";
  members = ms;
}

abbrev pub added : Str → List Str → Option (List Str) → Kernel → Kernel × Option Str
added n [] ms s = (s, none)
added n (e ∷ _) none s = (s, none)
added n (e ∷ _) (some ms) s = (put n (e ∷ without e ms) s, some [])

abbrev pub deleted : Str → List Str → Option (List Str) → Kernel → Kernel × Option Str
deleted n [] ms s = (s, none)
deleted n (e ∷ _) none s = (s, none)
deleted n (e ∷ _) (some ms) s = (put n (without e ms) s, if mem e ms then some [] else none)

abbrev pub listed : Str → Str → Option (List Str) → Kernel → Kernel × Option Str
listed type n none s = (s, none)
listed type n (some ms) s = (s, some (listing_text n (listing_of type ms)))

unfoldable pub ipset_runner : Str → List Str → Kernel → Kernel × Option Str
unfolding get put without str_equal
ipset_runner type [] s = (s, none)
ipset_runner type (c ∷ []) s = (s, none)
ipset_runner type (c ∷ n ∷ rest) s =
    if str_equal c (str "list")
    then listed type n (get n s) s
    else if str_equal c (str "add")
    then added n rest (get n s) s
    else if str_equal c (str "del")
    then deleted n rest (get n s) s
    else (s, none)

abbrev pub IsText : Str → Type 0
IsText e = Lacks newline e × (e ≢ [])

abbrev pub IsListed : Str → Kernel → Type 0
IsListed n s = Lacks newline n × IsWhole n × (ms : List Str) × (get n s ≡ some ms) × All IsText ms

All-without : (e : Str) (ms : List Str) → All IsText ms → All IsText (without e ms)
unfolding without str_equal
All-without e [] a = tt
All-without e (m ∷ ms) (p, a) = elim (Bool-cases (str_equal m e)) [
  | inl q ↦ rw q (All-without e ms a)
  | inr q ↦ rw q (p, All-without e ms a)
]

-- Storing texts keeps every set.
put-IsListed :
    (k : Str) (ms : List Str) (s : Kernel)
    → All IsText ms
    → (n : Str) → IsListed n s
    → IsListed n (put k ms s)
put-IsListed k ms s a n (l, w, ns, e, b) = elim (str_key.same k n) [
  | yes q ↦ (l, w, ms, ground (arith, get-put k n ms s), a)
  | no q ↦ (l, w, ns, ground (arith, get-put k n ms s), b)
]

mem_added :
    (e : Str) (ms : List Str) (m : Str)
    → mem m (e ∷ without e ms) ≡ (if str_equal e m then true else mem m ms)
unfolding str_equal
mem_added e ms m = ground (arith, mem-without e m ms)

-- Storing other members of a set changes what that set has.
has-put :
    (k : Str) (new ms : List Str) (s : Kernel)
    → get k s ≡ some ms
    → (b : Bool) (e : Str) → ((m : Str) → mem m new ≡ (if str_equal e m then b else mem m ms))
    → (n m : Str)
    → has n m (put k new s) ≡ (if str_equal k n && str_equal e m then b else has n m s)
unfolding str_equal
has-put k new ms s q b e h n m = ground (arith, get-put k n new s, h m)

text_lines : (ms : List Str) → All IsText ms → AreLines ms
text_lines [] a = tt
text_lines (m ∷ ms) (p, a) = (p.0, text_lines ms a)

text_members : (ms : List Str) → All IsText ms → AreMembers ms
text_members [] a = tt
text_members (m ∷ ms) (p, a) = (p.1, text_members ms a)

Lacks-append : (sep : ℕ) (a b : Str) → Lacks sep a → Lacks sep b → Lacks sep (a ++ b)
Lacks-append sep [] b h k = k
Lacks-append sep (c ∷ a) b (p, h) k = (p, Lacks-append sep a b h k)

module _ (type : Str) (type_lines : Lacks newline type) (type_whole : IsWhole type) where
  pub listing_of-IsListing :
      (n : Str) (ms : List Str)
      → Lacks newline n
      → IsWhole n
      → All IsText ms
      → IsListing n (listing_of type ms)
  unfolding split_colon
  listing_of-IsListing n ms l w a = record {
    lines = (
      Lacks-append newline (str "Name: ") n (omega arith) l,
      (
        Lacks-append newline (str "Type: ") type (omega arith) type_lines,
        (omega arith, (omega arith, (omega arith, (omega arith, (omega arith, text_lines ms a))))),
      ),
    );
    name_ok = w;
    type_ok = type_whole;
    words_ok = refl;
    references_ok = refl;
    family_ok = omega arith;
    hash_size_ok = omega arith;
    max_elem_ok = omega arith;
  }

  pub runner_lists :
      (n : Str) (s : Kernel)
      → IsListed n s
      → (l : Listing) × (ipset_runner type (str "list" ∷ n ∷ []) s ≡ (s, some (listing_text n l)))
        × IsListing n l
        × AreMembers l.members
        × (l.type ≡ type)
        × All IsText l.members
        × ((m : Str) → mem m l.members ≡ has n m s)
  unfolding ipset_runner Str-discrete ℕ_discrete
  runner_lists n s (l, w, ms, e, a) =
      let run : ipset_runner type (str "list" ∷ n ∷ []) s
          ≡ (s, some (listing_text n (listing_of type ms))) =
        ap (λ o. listed type n o s) e in
      (
        listing_of type ms,
        run,
        listing_of-IsListing n ms l w a,
        text_members ms a,
        refl,
        a,
        λ m. ap (λ o. mem m (members_of o)) (sym e),
      )

  pub runner_adds :
      (k e : Str) (s : Kernel)
      → IsListed k s
      → IsText e
      → ((n : Str)
          → IsListed n s
          → IsListed n (ipset_runner type (str "add" ∷ k ∷ e ∷ str "-exist" ∷ []) s).0)
        × ((n m : Str)
            → has n m (ipset_runner type (str "add" ∷ k ∷ e ∷ str "-exist" ∷ []) s).0
              ≡ (if str_equal k n && str_equal e m then true else has n m s))
  unfolding ipset_runner Str-discrete ℕ_discrete
  runner_adds k e s (l, w, ms, q, a) p =
      let run : (ipset_runner type (str "add" ∷ k ∷ e ∷ str "-exist" ∷ []) s).0
          ≡ put k (e ∷ without e ms) s =
        ap (λ o. (added k (e ∷ str "-exist" ∷ []) o s).0) q in
      rw run (
        put-IsListed k (e ∷ without e ms) s (p, All-without e ms a),
        λ n m. has-put k (e ∷ without e ms) ms s q true e (mem_added e ms) n m,
      )

  pub runner_deletes :
      (k e : Str) (s : Kernel)
      → IsListed k s
      → IsText e
      → ((n : Str) → IsListed n s → IsListed n (ipset_runner type (str "del" ∷ k ∷ e ∷ []) s).0)
        × ((n m : Str)
            → has n m (ipset_runner type (str "del" ∷ k ∷ e ∷ []) s).0
              ≡ (if str_equal k n && str_equal e m then false else has n m s))
  unfolding ipset_runner Str-discrete ℕ_discrete
  runner_deletes k e s (l, w, ms, q, a) p =
      let run : (ipset_runner type (str "del" ∷ k ∷ e ∷ []) s).0 ≡ put k (without e ms) s =
        ap (λ o. (deleted k (e ∷ []) o s).0) q in
      rw run (
        put-IsListed k (without e ms) s (All-without e ms a),
        λ n m. has-put k (without e ms) ms s q false e (λ x. mem-without e x ms) n m,
      )

  unfoldable pub runner_laws : RunnerLaws (ipset_runner type) type
  runner_laws = record {
    IsElementSet = IsListed;
    IsElement = IsText;
    holds = has;
    lists = runner_lists;
    adds = runner_adds;
    deletes = runner_deletes;
  }
