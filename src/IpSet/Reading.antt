-- ===== src/IpSet/Reading.antt =====
-- GetIPSet: the header of a listing is read into an IPSet. What strconv.Atoi returns beside an error
-- is a parameter.
pub mod Header
use enn_policy.Prelude.{
  ℕ, zero, suc, Bool, true, false, ◌&&◌, Option, none, some, List, [], ◌∷◌, Str, str, ◌==◌,
  if◌then◌else◌,
}
use enn_policy.Strings.{ℤ, pos, atoi, split, onto_first, has_prefix}
use enn_policy.IpSet.{IpSet, newline, ◌>>=◌}

-- strings.Split(s, ": ")
unfoldable pub split_colon : Str → List Str
split_colon [] = [] ∷ []
split_colon (c ∷ []) = (c ∷ []) ∷ []
split_colon (c ∷ d ∷ s) =
    let parts = split_colon s in
    let parts1 = split_colon (d ∷ s) in
    if (c == b':') && (d == b' ') then [] ∷ parts else onto_first c parts1

-- `parts[n]`, which panics out of range
unfoldable pub part : ℕ → List Str → Option Str
part n [] = none
part zero (s ∷ parts) = some s
part (suc n) (s ∷ parts) = part n parts

-- `strings.Split(line, ": ")[1]`
unfoldable pub colon_part : Str → Option Str
unfolding split_colon part
colon_part line = part 1 (split_colon line)

-- the IPSet that is returned, or an error, or a panic
pub data GetResult : Type 0 where
  found : IpSet → GetResult
  failed : GetResult
  panicked : GetResult

abbrev pub as_result : Option IpSet → GetResult
as_result none = panicked
as_result (some set) = found set

module _ (atoi_failed : Str → ℤ) where
  abbrev pub number : Str → ℤ
  number s = elim (atoi s) [ none ↦ atoi_failed s | some n ↦ n ]

  -- the words 1, 3 and 5 of the header
  unfoldable pub read_words : IpSet → List Str → Option IpSet
  unfolding part
  read_words set words = do
    family ← part 1 words
    hash_size ← part 3 words
    max_elem ← part 5 words
    some (record set { family = family; hash_size = number hash_size; max_elem = number max_elem })

  -- one line before `Members`; `none` is a panic
  unfoldable pub read_line : IpSet → Str → Option IpSet
  unfolding has_prefix colon_part read_words split
  read_line set line =
      if has_prefix line (str "Name")
      then (colon_part line >>= λ name. some (record set { name = name }))
      else if has_prefix line (str "Type")
      then (colon_part line >>= λ type. some (record set { type = type }))
      else if has_prefix line (str "Header")
      then (colon_part line >>= λ head. read_words set (split b' ' head))
      else if has_prefix line (str "Reference")
      then (colon_part line >>= λ count. some (record set { reference = number count }))
      else some set

  -- the loop, which ends at `Members`; such a line begins with none of the other words
  unfoldable pub read_lines : IpSet → List Str → Option IpSet
  unfolding has_prefix read_line
  read_lines set [] = some set
  read_lines set (line ∷ lines) =
      let rest = read_line set line >>= λ next. read_lines next lines in
      if has_prefix line (str "Members") then some set else rest

  -- `&IPSet{}`
  abbrev pub empty_set : IpSet
  empty_set = record {
    name = [];
    type = [];
    family = [];
    hash_size = pos 0;
    max_elem = pos 0;
    reference = pos 0;
  }

  -- GetIPSet
  unfoldable pub get_ip_set :
      {S : Type 0} → (List Str → S → S × Option Str) → Str → S → S × GetResult
  unfolding read_lines split
  get_ip_set exec name s =
      let (s1, out) = exec (str "list" ∷ name ∷ []) s in
      (
        s1,
        elim out [
          | none ↦ failed
          | some text ↦ as_result (read_lines empty_set (split newline text))
        ],
      )
