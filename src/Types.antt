-- ===== src/Types.antt =====
-- The keys of the policy maps (pkg/policy/util/policyinfo.go), and the API objects with the fields
-- that pkg/policy reads: Kubernetes' types.NamespacedName, Pod and Namespace.
use enn_policy.Prelude.{
  Bool, ◌≡◌, Option, Str, str, str_key, Str-discrete, ℕ_discrete, Key, ite, true, false, arith,
}
use enn_policy.GoMap.{GoMap, entries}
use enn_policy.GoMap.Distinct.{Distinct}

pub record NamespacedName : Type 0 where
  pub namespace : Str
  pub name : Str

pub record Label : Type 0 where
  pub label_key : Str
  pub label_value : Str

pub record NamespacedLabel : Type 0 where
  pub namespace : Str
  pub label_key : Str
  pub label_value : Str

unfoldable pub NamespacedName-discrete : Discrete NamespacedName
NamespacedName-discrete = hlevel ℕ_discrete

unfoldable pub Label-discrete : Discrete Label
Label-discrete = hlevel ℕ_discrete

unfoldable pub NamespacedLabel-discrete : Discrete NamespacedLabel
NamespacedLabel-discrete = hlevel ℕ_discrete

instance abbrev pub namespaced_name_key : Key NamespacedName
namespaced_name_key = record { same = NamespacedName-discrete }

instance abbrev pub label_key_key : Key Label
label_key_key = record { same = Label-discrete }

instance abbrev pub namespaced_label_key : Key NamespacedLabel
namespaced_label_key = record { same = NamespacedLabel-discrete }

-- `==` on strings
unfoldable pub str_equal : Str → Str → Bool
str_equal a b = ite (Str-discrete a b) true false

pub str_equal-eq : (a b : Str) → str_equal a b ≡ true → a ≡ b
unfolding str_equal
str_equal-eq a b h = ground arith

-- `map[string]string`, which may be nil
abbrev pub Labels : Type 0
Labels = Option (GoMap Str Str)

-- api.Pod: metadata.name, metadata.namespace, metadata.labels, status.podIP, spec.hostNetwork and
-- status.phase
pub record Pod : Type 0 where
  pub name : Str
  pub namespace : Str
  pub labels : Labels
  pub pod_ip : Str
  pub host_network : Bool
  pub phase : Str

abbrev pub pod_succeeded : Str
pod_succeeded = str "Succeeded"

abbrev pub pod_failed : Str
pod_failed = str "Failed"

-- api.Namespace: metadata.name and metadata.labels
pub record Namespace : Type 0 where
  pub name : Str
  pub labels : Labels

-- A map of the program holds no key twice.
abbrev pub IsMap : Labels → Type 0
IsMap l = Distinct (entries l)
