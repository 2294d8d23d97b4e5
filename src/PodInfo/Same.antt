-- ===== src/PodInfo/Same.antt =====
-- `reflect.DeepEqual` on the maps of podinfo.go is sound: what it calls equal holds the same
-- information under every key and address.
use enn_policy.Prelude.{true, ◌≡◌, refl, ◌∙◌, Option, none, some, arith, Str, str_key, Key}
use enn_policy.GoMap.{GoMap, entries, get}
use enn_policy.GoMap.Equal.{OptRel, Agree, deep_equal, deep_equal-Agree, OptRel-trans, OptRel-refl}
use enn_policy.GoMap.Sets.{find, IsProper, IsProper-Distinct, get-IsProper}
use enn_policy.Types.{Labels, IsMap, str_equal, str_equal-eq}
use enn_policy.PodInfo.{PodInfo, PodInfoMap, labels_equal, pod_info_equal, info_map_equal}

-- Both are nil, or neither and they have the same pairs.
abbrev pub SameLabels : Labels → Labels → Type 0
SameLabels = OptRel (Agree ◌≡◌)

pub record SameInfo (x y : PodInfo) : Type 0 where
  pub ip : x.ip ≡ y.ip
  pub name : x.name ≡ y.name
  pub namespace : x.namespace ≡ y.namespace
  pub labels : SameLabels x.labels y.labels

-- Both are nil, or neither and they have the same pods under every key and address.
abbrev pub SameSets :
    {K : Type 0} ⦃key : Key K⦄ → Option (GoMap K PodInfoMap) → Option (GoMap K PodInfoMap) → Type 0
SameSets = OptRel (Agree (Agree SameInfo))

pub labels_equal-SameLabels :
    (a b : Labels) → IsMap a → IsMap b → labels_equal a b ≡ true → SameLabels a b
unfolding deep_equal
labels_equal-SameLabels none none da db h = tt
labels_equal-SameLabels none (some b) da db h = cc
labels_equal-SameLabels (some a) none da db h = cc
labels_equal-SameLabels (some a) (some b) da db h =
    deep_equal-Agree str_equal ◌≡◌ a b da db (λ k x y p q e. str_equal-eq x y e) h

pod_info_equal-SameInfo :
    (x y : PodInfo) → IsMap x.labels → IsMap y.labels → pod_info_equal x y ≡ true → SameInfo x y
unfolding pod_info_equal
pod_info_equal-SameInfo x y dx dy h = record {
  ip = ground (arith, str_equal-eq x.ip y.ip);
  name = ground (arith, str_equal-eq x.name y.name);
  namespace = ground (arith, str_equal-eq x.namespace y.namespace);
  labels = labels_equal-SameLabels x.labels y.labels dx dy (ground arith);
}

pub SameLabels-trans : (a b c : Labels) → SameLabels a b → SameLabels b c → SameLabels a c
SameLabels-trans =
    OptRel-trans (Agree ◌≡◌) (λ x y z p q k.
      OptRel-trans ◌≡◌ (λ _ _ _ r s. r ∙ s) (get k x) (get k y) (get k z) (p k) (q k))

SameInfo-trans : (x y z : PodInfo) → SameInfo x y → SameInfo y z → SameInfo x z
SameInfo-trans x y z p q = record {
  ip = p.ip ∙ q.ip;
  name = p.name ∙ q.name;
  namespace = p.namespace ∙ q.namespace;
  labels = SameLabels-trans x.labels y.labels z.labels p.labels q.labels;
}

pub SameLabels-refl : (a : Labels) → SameLabels a a
SameLabels-refl = OptRel-refl (Agree ◌≡◌) (λ x k. OptRel-refl ◌≡◌ (λ _. refl) (get k x))

module _ {K : Type 0} ⦃key : Key K⦄ where
  -- The labels of every pod in the sets have no key twice.
  abbrev pub HasMaps : GoMap K PodInfoMap → Type 0
  HasMaps m = (k : K) (ip : Str) (info : PodInfo) → find k ip m ≡ some info → IsMap info.labels

  abbrev pub IsWell : Option (GoMap K PodInfoMap) → Type 0
  IsWell o = IsProper (entries o) × HasMaps (entries o)

  pub SameSets-trans :
      (a b c : Option (GoMap K PodInfoMap)) → SameSets a b → SameSets b c → SameSets a c
  SameSets-trans = OptRel-trans (Agree (Agree SameInfo)) (λ x y z p q k.
      OptRel-trans (Agree SameInfo)
        (λ s t u f g ip.
          OptRel-trans SameInfo SameInfo-trans (get ip s) (get ip t) (get ip u) (f ip) (g ip))
        (get k x) (get k y) (get k z) (p k) (q k))

  pub SameSets-refl : (a : Option (GoMap K PodInfoMap)) → SameSets a a
  SameSets-refl = OptRel-refl (Agree (Agree SameInfo)) (λ x k.
      OptRel-refl (Agree SameInfo)
        (λ s ip.
          OptRel-refl SameInfo
            (λ i. record {
              ip = refl;
              name = refl;
              namespace = refl;
              labels = SameLabels-refl i.labels;
            })
            (get ip s))
        (get k x))

  -- What DeepEqual calls equal is the same, if Go's maps hold no key twice.
  pub deep_equal-SameSets :
      (a b : Option (GoMap K PodInfoMap))
      → IsWell a
      → IsWell b
      → deep_equal info_map_equal a b ≡ true
      → SameSets a b
  unfolding deep_equal
  deep_equal-SameSets none none wa wb h = tt
  deep_equal-SameSets none (some b) wa wb h = cc
  deep_equal-SameSets (some a) none wa wb h = cc
  deep_equal-SameSets (some a) (some b) wa wb h =
      deep_equal-Agree info_map_equal (Agree SameInfo) a b (IsProper-Distinct a wa.0)
        (IsProper-Distinct b wb.0)
        (λ k s t p q e.
          deep_equal-Agree pod_info_equal SameInfo s t (get-IsProper k a wa.0 p)
            (get-IsProper k b wb.0 q)
            (λ ip x y f g.
              pod_info_equal-SameInfo x y (wa.1 k ip x (rw p f)) (wb.1 k ip y (rw q g)))
            e)
        h
