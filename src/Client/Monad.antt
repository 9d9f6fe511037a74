-- ===== src/Client/Monad.antt =====
-- Errors, the client's operations, the state of the operator's process, and the monad of a handler.
use service_router_operator.Base.{
  ℕ, String, List, [], Bool, true, false, Option, none, if◌then◌else◌,
}
use service_router_operator.Api.{
  NamespacedName, ObjectMeta, Condition, OwnerReference, GroupVersionKind, ClusterIdentity,
  DnsConfiguration, DnsPolicy, Gateway, ServiceRoute, Service, IstioGateway, DnsEndpoint,
  ExternalDnsController,
}

-- `IsNotFound`, `IsConflict`, or any other failure.
pub data Reason : Type 0 where
  not_found conflict other : Reason

pub record ApiError : Type 0 where
  pub reason : Reason
  pub message : String

abbrev pub is_not_found : ApiError → Bool
is_not_found e = elim e.reason [ not_found ↦ true | _ ↦ false ]

abbrev pub is_conflict : ApiError → Bool
is_conflict e = elim e.reason [ conflict ↦ true | _ ↦ false ]

-- A Go pair of a value and an error, of which the handlers use the value only if the error is nil.
pub data Result {ℓ} (A : Type ℓ) : Type ℓ where
  ok : A → Result A
  err : ApiError → Result A

-- `ctrl.Result`; the delay is in nanoseconds.
pub record ReconcileResult : Type 0 where
  pub requeue : Bool
  pub requeue_after : ℕ

-- `client.InNamespace`, `client.MatchingLabels` and `client.HasLabels`.
pub record ListOptions : Type 0 where
  pub in_namespace : Option String
  pub matching_labels : List (String × String)
  pub has_labels : List String

-- The client at one kind of object, over the server's state. `patch` takes the object as it was
-- read, which `client.MergeFrom` holds, and as it is now.
pub record ObjectClient (S T : Type 0) : Type 0 where
  pub get : NamespacedName → S → Result T × S
  pub list : ListOptions → S → Result (List T) × S
  pub create : T → S → Result (Unit {0}) × S
  pub patch : T → T → S → Result (Unit {0}) × S
  pub delete : T → S → Result (Unit {0}) × S
  pub update_status : T → S → Result (Unit {0}) × S

pub record Client (S : Type 0) : Type 0 where
  pub cluster_identities : ObjectClient S ClusterIdentity
  pub dns_configurations : ObjectClient S DnsConfiguration
  pub dns_policies : ObjectClient S DnsPolicy
  pub gateways : ObjectClient S Gateway
  pub service_routes : ObjectClient S ServiceRoute
  pub services : ObjectClient S Service
  pub istio_gateways : ObjectClient S IstioGateway
  pub dns_endpoints : ObjectClient S DnsEndpoint

-- The values that the two packages under internal/ keep in their caches.
pub record Identity : Type 0 where
  pub region : String
  pub cluster : String
  pub domain : String
  pub environment_letter : String
  pub adopts_regions : List String

pub record DnsConfig : Type 0 where
  pub external_dns_controllers : List ExternalDnsController

pub record GatewayControllerConfig : Type 0 where
  pub controller : String
  pub target_postfix : String

-- The order in which `range` visits the entries of a map: one field for each such loop.
pub record MapOrder : Type 0 where
  pub hosts : List String → List String
  pub namespaces : List String → List String
  pub desired : List (String × DnsEndpoint) → List (String × DnsEndpoint)
  pub existing : List (String × DnsEndpoint) → List (String × DnsEndpoint)
  pub service_namespaces : List String → List String
  pub configs : List GatewayControllerConfig → List GatewayControllerConfig

pub record Env (S : Type 0) : Type 0 where
  pub client : Client S
  pub set_status_condition : List Condition → Condition → List Condition
  pub new_controller_ref : ObjectMeta → GroupVersionKind → OwnerReference
  pub range : MapOrder
  pub default_router_gateway_namespace : String

-- The server, and the two caches of the operator's process.
pub record World (S : Type 0) : Type 0 where
  pub server : S
  pub identity_cache : Option Identity
  pub config_cache : Option DnsConfig

abbrev pub M : Type 0 → Type 0 → Type 0
M S A = World S → Result A × World S

module _ {S A : Type 0} where
  abbrev pub pure : A → M S A
  pure a w = (ok a, w)

  abbrev pub fail : ApiError → M S A
  fail e w = (err e, w)

  -- `if err != nil { … }` with another branch than to return the error.
  abbrev pub attempt : M S A → M S (Result A)
  attempt m w = let p = m w in (ok p.0, p.1)

  abbrev pub call : (S → Result A × S) → M S A
  call op w = let p = op w.server in (p.0, record w { server = p.1 })

module _ {S A B : Type 0} where
  abbrev pub chain : Result A × World S → (A → M S B) → Result B × World S
  chain (ok a, w) f = f a w
  chain (err e, w) f = (err e, w)

  -- `if err != nil { return …, err }`
  infixl 5 ◌>>=◌
  abbrev pub ◌>>=◌ : M S A → (A → M S B) → M S B
  ◌>>=◌ m f w = chain (m w) f

module _ {S B : Type 0} where
  infixl 5 ◌>>◌
  abbrev pub ◌>>◌ : M S (Unit {0}) → M S B → M S B
  m >> k = m >>= λ _. k

-- `ListOptions` of a `List` call without options.
abbrev pub everything : ListOptions
everything = record { in_namespace = none; matching_labels = []; has_labels = [] }

-- `ctrl.Result{}`
abbrev pub done : ReconcileResult
done = record { requeue = false; requeue_after = 0 }

-- How each handler ends: it updates the status, asks for another run after a conflict, and returns
-- any other error.
abbrev pub finish : {S : Type 0} → M S (Unit {0}) → ReconcileResult → M S ReconcileResult
finish update result = do
  updated ← attempt update
  elim updated [
    | ok _ ↦ pure result
    | err e ↦ if is_conflict e then pure (record { requeue = true; requeue_after = 0 }) else fail e
  ]
