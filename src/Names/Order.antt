-- ===== src/Names/Order.antt =====
-- The name of the set for a selector depends on its keys and values alone, not on their order.
use mathlib.Core.List.{Perm, foldr}
use mathlib.Core.List.Perm
use enn_policy.Prelude.{
  ◌≡◌, refl, sym, ap, ◌∙◌, ℕ_discrete, true, ◌⊎◌, inl, inr, List, [], ◌∷◌, Str, arith,
}
use enn_policy.Names.{str_leb, insert_sorted, sort_strings, enn_x_label_ip_set_name}

str_leb-antisym : (a b : Str) → str_leb a b ≡ true → str_leb b a ≡ true → a ≡ b
unfolding str_leb
str_leb-antisym [] [] p q = refl
str_leb-antisym [] (y ∷ b) p q = cc
str_leb-antisym (x ∷ a) [] p q = cc
str_leb-antisym (x ∷ a) (y ∷ b) p q = ground (arith, str_leb-antisym a b)

str_leb-total : (a b : Str) → (str_leb a b ≡ true) ⊎ (str_leb b a ≡ true)
unfolding str_leb
str_leb-total [] b = inl refl
str_leb-total (x ∷ a) [] = inr refl
str_leb-total (x ∷ a) (y ∷ b) = ground (arith, str_leb-total a b)

str_leb_trans : (a b c : Str) → str_leb a b ≡ true → str_leb b c ≡ true → str_leb a c ≡ true
unfolding str_leb
str_leb_trans [] b c p q = refl
str_leb_trans (x ∷ a) [] c p q = cc
str_leb_trans (x ∷ a) (y ∷ b) [] p q = cc
str_leb_trans (x ∷ a) (y ∷ b) (z ∷ c) p q = ground (arith, str_leb_trans a b c)

-- Inserting two texts in either order gives one list.
insert_sorted-swap :
    (a b : Str) (l : List Str)
    → insert_sorted a (insert_sorted b l) ≡ insert_sorted b (insert_sorted a l)
unfolding insert_sorted
insert_sorted-swap a b [] = ground (arith, str_leb-antisym a b, str_leb-total a b)
insert_sorted-swap a b (t ∷ l) = ground (
  arith,
  insert_sorted-swap a b l,
  str_leb-antisym a b,
  str_leb-total a b,
  str_leb-total a t,
  str_leb-total b t,
  str_leb_trans a b t,
  str_leb_trans b a t,
  str_leb_trans a t b,
  str_leb_trans b t a,
)

sort_strings-foldr : (l : List Str) → sort_strings l ≡ foldr insert_sorted [] l
unfolding sort_strings
sort_strings-foldr [] = refl
sort_strings-foldr (s ∷ l) = ap (insert_sorted s) (sort_strings-foldr l)

List-IsSet : IsSet (List Str)
List-IsSet = hlevel ℕ_discrete

sort_strings-Perm : (l l' : List Str) → Perm l l' → sort_strings l ≡ sort_strings l'
sort_strings-Perm l l' p =
    sort_strings-foldr l
    ∙ (Perm.foldr-eq List-IsSet insert_sorted insert_sorted-swap p [] ∙ sym (sort_strings-foldr l'))

-- The name of the set for a selector is one and the same for every order of its keys and values. So
-- it does not depend on the order in which Go runs through the labels; but two selectors whose
-- keys and values are the same texts, paired otherwise, have one name too.
pub enn_x_label_ip_set_name-Perm :
    (encoded : Str → Str) (namespace kind : Str) (labels labels' : List Str)
    → Perm labels labels'
    → enn_x_label_ip_set_name encoded namespace kind labels
      ≡ enn_x_label_ip_set_name encoded namespace kind labels'
unfolding enn_x_label_ip_set_name
enn_x_label_ip_set_name-Perm encoded namespace kind labels labels' p =
    rw (sort_strings-Perm labels labels' p)
