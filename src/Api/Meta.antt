-- ===== src/Api/Meta.antt =====
-- What the operator uses of Kubernetes' metadata: names, labels, owner references, status
-- conditions, and the group versions of the operator's own objects (groupversion_info.go).
use service_router_operator.Base.{
  ℕ, String, List, Option, Bool, true, ◌≡◌, ◌↔◌, ◌&&◌, arith, Comparable, ◌==◌, string_eq,
}

pub record NamespacedName : Type 0 where
  pub name : String
  pub namespace : String

abbrev pub names_eq : NamespacedName → NamespacedName → Bool
names_eq a b = a.name == b.name && a.namespace == b.namespace

pub names_eq_iff : (a b : NamespacedName) → (names_eq a b ≡ true) ↔ (a ≡ b)
names_eq_iff a b =
    ground (arith, string_eq.test_iff a.name b.name, string_eq.test_iff a.namespace b.namespace)

instance abbrev pub names_Eq : Comparable NamespacedName
names_Eq = record { test = names_eq; test_iff = names_eq_iff }

pub record OwnerReference : Type 0 where
  pub api_version : String
  pub kind : String
  pub name : String
  pub uid : String
  pub controller : Bool

pub record GroupVersionKind : Type 0 where
  pub group : String
  pub version : String
  pub kind : String

-- `GroupVersion.WithKind` of the routing group.
abbrev pub routing_kind : String → GroupVersionKind
routing_kind k = record { group = "routing.router.io"; version = "v1alpha1"; kind = k }

pub record ObjectMeta : Type 0 where
  pub name : String
  pub namespace : String
  pub uid : String
  pub generation : ℕ
  pub deletion_timestamp : Option ℕ
  pub labels : List (String × String)
  pub annotations : List (String × String)
  pub owner_references : List OwnerReference

abbrev pub key_of : ObjectMeta → NamespacedName
key_of m = record { name = m.name; namespace = m.namespace }

pub data ConditionStatus : Type 0 where
  condition_true condition_false condition_unknown : ConditionStatus

pub record Condition : Type 0 where
  pub type : String
  pub status : ConditionStatus
  pub observed_generation : ℕ
  pub reason : String
  pub message : String
