-- ===== src/IpSet/Reading/Header.antt =====
-- GetIPSet reads the header of a listing as ipset writes it.
use enn_policy.Prelude.{◌≡◌, refl, ap, Option, some, List, [], ◌∷◌, ◌++◌, Str, str}
use enn_policy.Strings.{ℤ, split, has_prefix}
use enn_policy.Strings.Split.{Lacks, split-append, split-Lacks}
use enn_policy.IpSet.{IpSet}
use enn_policy.IpSet.Listing.{unlines, AreLines, split-unlines}
use enn_policy.IpSet.Reading.{
  split_colon, colon_part, part, found, as_result, number, read_words, read_line, read_lines,
  empty_set, get_ip_set,
}

-- What `ipset list` prints of a set: the values of its header, and its members.
pub record Listing : Type 0 where
  pub type : Str
  pub revision : Str
  pub family : Str
  pub hash_size : Str
  pub max_elem : Str
  pub memory : Str
  pub references : Str
  pub members : List Str

abbrev pub header_words : Listing → Str
header_words l =
    str "family "
    ++ (l.family ++ (str " hashsize " ++ (l.hash_size ++ (str " maxelem " ++ l.max_elem))))

abbrev pub header_lines : Str → Listing → List Str
header_lines name l =
    (str "Name: " ++ name)
    ∷ (str "Type: " ++ l.type)
    ∷ (str "Revision: " ++ l.revision)
    ∷ (str "Header: " ++ header_words l)
    ∷ (str "Size in memory: " ++ l.memory)
    ∷ (str "References: " ++ l.references)
    ∷ []

abbrev pub listing_text : Str → Listing → Str
listing_text name l = unlines (header_lines name l ++ (str "Members:" ∷ l.members))

-- Split finds no ": " in the string.
abbrev pub IsWhole : Str → Type 0
IsWhole s = split_colon s ≡ s ∷ []

-- The texts of a listing have no newline, and its values no separator that GetIPSet splits at.
pub record IsListing (name : Str) (l : Listing) : Type 0 where
  pub lines : AreLines (header_lines name l ++ (str "Members:" ∷ l.members))
  pub name_ok : IsWhole name
  pub type_ok : IsWhole l.type
  pub words_ok : IsWhole (header_words l)
  pub references_ok : IsWhole l.references
  pub family_ok : Lacks b' ' l.family
  pub hash_size_ok : Lacks b' ' l.hash_size
  pub max_elem_ok : Lacks b' ' l.max_elem

colon_part-name : (s : Str) → IsWhole s → colon_part (str "Name: " ++ s) ≡ some s
unfolding colon_part split_colon part
colon_part-name s h = rw h refl

colon_part-type : (s : Str) → IsWhole s → colon_part (str "Type: " ++ s) ≡ some s
unfolding colon_part split_colon part
colon_part-type s h = rw h refl

colon_part-header : (s : Str) → IsWhole s → colon_part (str "Header: " ++ s) ≡ some s
unfolding colon_part split_colon part
colon_part-header s h = rw h refl

colon_part-references : (s : Str) → IsWhole s → colon_part (str "References: " ++ s) ≡ some s
unfolding colon_part split_colon part
colon_part-references s h = rw h refl

split-header_words :
    (name : Str) (l : Listing)
    → IsListing name l
    → split b' ' (header_words l)
      ≡ (str "family" ∷ l.family ∷ str "hashsize" ∷ l.hash_size ∷ str "maxelem" ∷ l.max_elem ∷ [])
unfolding split
split-header_words name l h =
    let e1 =
      split-append b' ' l.family
        (str "hashsize " ++ (l.hash_size ++ (str " maxelem " ++ l.max_elem))) h.family_ok in
    let e2 = split-append b' ' l.hash_size (str "maxelem " ++ l.max_elem) h.hash_size_ok in
    let e3 = split-Lacks b' ' l.max_elem h.max_elem_ok in rw (e1, e2, e3) refl

module _ (atoi_failed : Str → ℤ) where
  -- the IPSet of a listing
  abbrev pub set_of : Str → Listing → IpSet
  set_of name l = record {
    name = name;
    type = l.type;
    family = l.family;
    hash_size = number atoi_failed l.hash_size;
    max_elem = number atoi_failed l.max_elem;
    reference = number atoi_failed l.references;
  }

  read_lines-listing :
      (name : Str) (l : Listing)
      → IsListing name l
      → (rest : List Str)
      → read_lines atoi_failed
          (empty_set atoi_failed)
          (header_lines name l ++ (str "Members:" ∷ rest))
        ≡ some (set_of name l)
  unfolding read_lines read_line read_words has_prefix part
  read_lines-listing name l h rest =
      rw
        (
          colon_part-name name h.name_ok,
          colon_part-type l.type h.type_ok,
          colon_part-header (header_words l) h.words_ok,
          split-header_words name l h,
          colon_part-references l.references h.references_ok,
        )
        refl

  -- Where the command runner answers `list` with a listing as ipset writes it, GetIPSet returns the
  -- name, the type, the family, the sizes and the count of references that stand in its header.
  pub get_ip_set-listing :
      {S : Type 0} (exec : List Str → S → S × Option Str) (name : Str) (l : Listing) (s s' : S)
      → exec (str "list" ∷ name ∷ []) s ≡ (s', some (listing_text name l))
      → IsListing name l
      → get_ip_set atoi_failed exec name s ≡ (s', found (set_of name l))
  unfolding get_ip_set
  get_ip_set-listing exec name l s s' e h =
      rw (e, split-unlines (header_lines name l ++ (str "Members:" ∷ l.members)) h.lines)
        (ap (λ r. (s', as_result r)) (read_lines-listing name l h (l.members ++ [] ∷ [])))
