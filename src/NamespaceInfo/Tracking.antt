-- ===== src/NamespaceInfo/Tracking.antt =====
-- The pending namespace changes after a chain of events for one namespace.
use enn_policy.Prelude.{◌≡◌, refl, ◌∙◌, true, Option, none, some, List, [], ◌∷◌, arith, str_key}
use enn_policy.GoMap.{get}
use enn_policy.GoMap.Equal.{OptRel, OptRel-trans, OptRel-refl}
use enn_policy.Types.{NamespacedName, namespaced_name_key, Namespace, IsMap, str_equal-eq}
use enn_policy.Changes.{Change}
use enn_policy.Changes.Net.{Net, NetOf, track-NetOf, NetOf-Net}
use enn_policy.PodInfo.Same.{SameLabels, labels_equal-SameLabels, SameLabels-trans, SameLabels-refl}
use enn_policy.NamespaceInfo.{
  NamespaceInfo, NamespaceChangeMap, build_namespace_info, namespace_info_equal, update,
}

unfoldable pub updates :
    NamespaceChangeMap
    → NamespacedName
    → Option Namespace
    → List (Option Namespace)
    → NamespaceChangeMap
updates ncm name now [] = ncm
updates ncm name now (next ∷ events) = updates (update ncm name now next).0 name next events

abbrev pub last : Option Namespace → List (Option Namespace) → Option Namespace
last now [] = now
last now (next ∷ events) = last next events

-- What the API server sends has no label key twice.
abbrev pub IsApiNamespace : Option Namespace → Type 0
IsApiNamespace none = Unit
IsApiNamespace (some n) = IsMap n.labels

abbrev pub AreApiNamespaces : List (Option Namespace) → Type 0
AreApiNamespaces [] = Unit
AreApiNamespaces (o ∷ events) = IsApiNamespace o × AreApiNamespaces events

abbrev pub SameNamespace : NamespaceInfo → NamespaceInfo → Type 0
SameNamespace a b = (a.name ≡ b.name) × SameLabels a.labels b.labels

-- Both are nil, or neither and they have one name and the same labels.
abbrev pub SameInfos : Option NamespaceInfo → Option NamespaceInfo → Type 0
SameInfos = OptRel SameNamespace

abbrev HasMap : Option NamespaceInfo → Type 0
HasMap none = Unit
HasMap (some info) = IsMap info.labels

SameInfos-trans : (a b c : Option NamespaceInfo) → SameInfos a b → SameInfos b c → SameInfos a c
SameInfos-trans =
    OptRel-trans SameNamespace
      (λ x y z p q. (p.0 ∙ q.0, SameLabels-trans x.labels y.labels z.labels p.1 q.1))

namespace_info_equal-SameInfos :
    (a b : Option NamespaceInfo)
    → HasMap a
    → HasMap b
    → namespace_info_equal a b ≡ true
    → SameInfos a b
unfolding namespace_info_equal
namespace_info_equal-SameInfos none none ha hb h = tt
namespace_info_equal-SameInfos none (some b) ha hb h = cc
namespace_info_equal-SameInfos (some a) none ha hb h = cc
namespace_info_equal-SameInfos (some a) (some b) ha hb h = (
  str_equal-eq a.name b.name (ground arith),
  labels_equal-SameLabels a.labels b.labels ha hb (ground arith),
)

build-HasMap : (o : Option Namespace) → IsApiNamespace o → HasMap (build_namespace_info o)
unfolding build_namespace_info
build-HasMap none h = tt
build-HasMap (some n) h = h

-- Pending for a namespace that was `start` at the last sync and is `now` today.
abbrev pub NamespaceNet :
    Option Namespace → Option Namespace → Option (Change (Option NamespaceInfo)) → Type 0
NamespaceNet start now =
    Net namespace_info_equal SameInfos (build_namespace_info start) (build_namespace_info now)

abbrev NamespaceNetOf :
    Option Namespace → Option Namespace → Option (Change (Option NamespaceInfo)) → Type 0
NamespaceNetOf start now =
    NetOf namespace_info_equal SameInfos HasMap SameInfos-trans namespace_info_equal-SameInfos
      (build_namespace_info start) (build_namespace_info now)

updates-NamespaceNetOf :
    (start now : Option Namespace) (name : NamespacedName) (events : List (Option Namespace))
    (ncm : NamespaceChangeMap)
    → IsApiNamespace now
    → AreApiNamespaces events
    → NamespaceNetOf start now (get name ncm.items)
    → NamespaceNetOf start (last now events) (get name (updates ncm name now events).items)
unfolding updates update
updates-NamespaceNetOf start now name [] ncm an ae h = h
updates-NamespaceNetOf start now name (next ∷ events) ncm an ae h =
    updates-NamespaceNetOf start next name events (update ncm name now next).0 ae.0 ae.1 (
      track-NetOf namespace_info_equal SameInfos HasMap SameInfos-trans
        namespace_info_equal-SameInfos name (build_namespace_info start) (build_namespace_info now)
        (build_namespace_info next) ncm.items (build-HasMap now an) (build-HasMap next ae.0) h)

-- A chain of events for one namespace, from a state with nothing pending for it, leaves its net
-- effect pending: nothing, when name and labels agree at both ends; or else a change from what
-- agrees with the first state to the last state, which DeepEqual tells apart. The namespaces come
-- from the API server, so no label key stands twice.
pub updates-NamespaceNet :
    (start : Option Namespace) (name : NamespacedName) (events : List (Option Namespace))
    (ncm : NamespaceChangeMap)
    → IsApiNamespace start
    → AreApiNamespaces events
    → get name ncm.items ≡ none
    → NamespaceNet start (last start events) (get name (updates ncm name start events).items)
updates-NamespaceNet start name events ncm a ae e =
    NetOf-Net namespace_info_equal SameInfos HasMap SameInfos-trans namespace_info_equal-SameInfos
      (build_namespace_info start) (build_namespace_info (last start events)) _
      (updates-NamespaceNetOf start start name events ncm a ae (
        rw e (
          OptRel-refl SameNamespace (λ x. (refl, SameLabels-refl x.labels))
            (build_namespace_info start))))
