-- ===== src/Tests/Data.antt =====
-- Pods and namespaces for the tests.
use enn_policy.Prelude.{false, some, [], ◌∷◌, refl, Str, str, str_key}
use enn_policy.GoMap.{get}
use enn_policy.Types.{NamespacedName, NamespacedLabel, Pod, Namespace, IsMap, Labels}

abbrev pub shop : Str
shop = str "shop"

abbrev pub app_web : Labels
app_web = some ((str "app", str "web") ∷ [])

-- a pod of the namespace `shop` with the label app=web
abbrev pub web : Pod
web = record {
  name = str "web-0";
  namespace = shop;
  labels = app_web;
  pod_ip = str "10.0.0.1";
  host_network = false;
  phase = str "Running";
}

-- another pod, with the same label and the same address
abbrev pub heir : Pod
heir = record web { name = str "web-1" }

abbrev pub web_name : NamespacedName
web_name = record { namespace = shop; name = str "web-0" }

abbrev pub heir_name : NamespacedName
heir_name = record { namespace = shop; name = str "web-1" }

abbrev pub web_label : NamespacedLabel
web_label = record { namespace = shop; label_key = str "app"; label_value = str "web" }

pub app_web-IsMap : IsMap app_web
unfolding get
app_web-IsMap = (refl, tt)

abbrev pub prod : Labels
prod = some ((str "env", str "prod") ∷ [])

abbrev pub test : Labels
test = some ((str "env", str "test") ∷ [])

abbrev pub shop_namespace : Namespace
shop_namespace = record { name = shop; labels = prod }

abbrev pub shop_name : NamespacedName
shop_name = record { namespace = []; name = shop }

pub prod-IsMap : IsMap prod
unfolding get
prod-IsMap = (refl, tt)

pub test-IsMap : IsMap test
unfolding get
test-IsMap = (refl, tt)
