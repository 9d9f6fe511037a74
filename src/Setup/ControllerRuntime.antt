-- ===== src/Setup/ControllerRuntime.antt =====
-- What the set-up takes from controller-runtime, as parameters: the manager and the builder of a
-- controller, and the documented meaning of a builder: which events of the watched objects put which
-- requests on a controller's queue.
use service_router_operator.Base.{
  String, List, [], ◌∷◌, ◌++◌, Option, none, some, Bool, true, false, not, ◌&&◌, ◌||◌, ◌≡◌, any,
  all, contains, ◌==◌, nat_eq, string_eq,
}
use service_router_operator.Api.{
  NamespacedName, names_Eq, ObjectMeta, OwnerReference, key_of, ClusterIdentity, DnsConfiguration,
  DnsPolicy, Gateway, ServiceRoute, Service, IstioGateway, DnsEndpoint,
}
use service_router_operator.Client.{Client, World, M, Result, ok, err, ReconcileResult}

-- The objects that the controllers watch.
pub data ObjectKind : Type 0 where
  cluster_identity dns_configuration dns_policy gateway service_route service istio_gateway
        dns_endpoint :
      ObjectKind

abbrev pub ObjectOf : ObjectKind → Type 0
ObjectOf cluster_identity = ClusterIdentity
ObjectOf dns_configuration = DnsConfiguration
ObjectOf dns_policy = DnsPolicy
ObjectOf gateway = Gateway
ObjectOf service_route = ServiceRoute
ObjectOf service = Service
ObjectOf istio_gateway = IstioGateway
ObjectOf dns_endpoint = DnsEndpoint

abbrev pub meta_of : (k : ObjectKind) → ObjectOf k → ObjectMeta
meta_of cluster_identity o = o.meta
meta_of dns_configuration o = o.meta
meta_of dns_policy o = o.meta
meta_of gateway o = o.meta
meta_of service_route o = o.meta
meta_of service o = o.meta
meta_of istio_gateway o = o.meta
meta_of dns_endpoint o = o.meta

-- An object of one kind, where another kind is asked for.
abbrev pub as_kind : (k l : ObjectKind) → ObjectOf k → Option (ObjectOf l)
as_kind cluster_identity cluster_identity o = some o
as_kind dns_configuration dns_configuration o = some o
as_kind dns_policy dns_policy o = some o
as_kind gateway gateway o = some o
as_kind service_route service_route o = some o
as_kind service service o = some o
as_kind istio_gateway istio_gateway o = some o
as_kind dns_endpoint dns_endpoint o = some o
as_kind _ _ _ = none

-- What a watch reports.
pub data Event (k : ObjectKind) : Type 0 where
  created : ObjectOf k → Event k
  updated : ObjectOf k → ObjectOf k → Event k
  deleted : ObjectOf k → Event k

-- The objects for which a handler makes requests: of an update, the old one and the new one.
abbrev pub objects : {k : ObjectKind} → Event k → List (ObjectOf k)
objects (created o) = o ∷ []
objects (updated old new) = old ∷ new ∷ []
objects (deleted o) = o ∷ []

-- The object as it is after the event.
abbrev pub current : {k : ObjectKind} → Event k → ObjectOf k
current (created o) = o
current (updated old new) = new
current (deleted o) = o

abbrev pub Filter : Type 0
Filter = (k : ObjectKind) → Event k → Bool

-- `Watches` with `EnqueueRequestsFromMapFunc`
pub record Watch (S : Type 0) : Type 0 where
  pub kind : ObjectKind
  pub requests : ObjectOf kind → M S (List NamespacedName)

-- What a builder has gathered: the object of `For`, those of `Owns`, the watches and the filters.
pub record Sources (S : Type 0) : Type 0 where
  pub for : Option ObjectKind
  pub owned : List ObjectKind
  pub watched : List (Watch S)
  pub filters : List Filter

pub record Controller (S : Type 0) : Type 0 where
  pub sources : Sources S
  pub reconcile : NamespacedName → M S ReconcileResult

-- The API groups that are added to the scheme.
pub data SchemeGroup : Type 0 where
  client_go cluster_group routing_group istio_group external_dns_group core_group : SchemeGroup

-- `ctrl.Options`
pub record ManagerOptions : Type 0 where
  pub metrics_bind_address : String
  pub health_probe_bind_address : String
  pub leader_election : Bool
  pub leader_election_id : String

-- The library's operations, over the state `P` of what it keeps in the process: the scheme, the
-- manager with its controllers and its checks. `B` is a builder.
pub record Runtime (S P B : Type 0) : Type 0 where
  pub add_to_scheme : SchemeGroup → P → Result (Unit {0}) × P
  pub get_config : P → Result (Unit {0}) × P
  pub new_manager : ManagerOptions → P → Result (Unit {0}) × P
  pub get_client : P → Client S
  pub new_controller_managed_by : P → B
  pub for : ObjectKind → B → B
  pub named : String → B → B
  pub owns : ObjectKind → B → B
  pub watches : (k : ObjectKind) → (ObjectOf k → M S (List NamespacedName)) → B → B
  pub with_event_filter : Filter → B → B
  pub complete : (NamespacedName → M S ReconcileResult) → B → P → Result (Unit {0}) × P
  pub generation_changed : Filter
  pub refers_to : ObjectKind → OwnerReference → Bool
  pub add_healthz_check : String → P → Result (Unit {0}) × P
  pub add_readyz_check : String → P → Result (Unit {0}) × P
  pub start : P → Result (Unit {0}) × P

-- The requests of the handlers for one event.
module _ {S P B : Type 0} (rt : Runtime S P B) (k : ObjectKind) (e : Event k) where
  -- `For`: the object itself.
  abbrev pub asks_self : Option ObjectKind → NamespacedName → Bool
  asks_self none req = false
  asks_self (some f) req = elim (as_kind k f (current e)) [
    | none ↦ false
    | some x ↦ key_of (meta_of f x) == req
  ]

  -- The request for an owner lies in the namespace of what is owned.
  abbrev pub owner_requested : ObjectKind → ObjectMeta → NamespacedName → Bool
  owner_requested owner m req =
      any
        (λ r.
          r.controller
          && (rt.refers_to owner r && record { name = r.name; namespace = m.namespace } == req))
        m.owner_references

  -- `Owns`: the controlling owner, if it is of the kind of `For`.
  abbrev pub asks_owner : Option ObjectKind → NamespacedName → ObjectKind → Bool
  asks_owner none req l = false
  asks_owner (some f) req l =
      any
        (λ o. elim (as_kind k l o) [ none ↦ false | some x ↦ owner_requested f (meta_of l x) req ])
        (objects e)

  abbrev pub returned_request : Result (List NamespacedName) → NamespacedName → Bool
  returned_request (ok ks) req = contains req ks
  returned_request (err _) req = false

  -- `Watches`: what the function returns.
  abbrev pub asks_mapped : World S → NamespacedName → Watch S → Bool
  asks_mapped w req wt =
      any
        (λ o. elim (as_kind k wt.kind o) [
          | none ↦ false
          | some x ↦ returned_request (wt.requests x w).0 req
        ])
        (objects e)

  abbrev pub asks : Sources S → World S → NamespacedName → Bool
  asks c w req =
      all (λ f. f k e) c.filters
      && (asks_self c.for req
          || (any (asks_owner c.for req) c.owned || any (asks_mapped w req) c.watched))

-- The documented behaviour: each call of a builder adds to what it has gathered, `Complete` adds the
-- controller to the manager unless it fails, and no other call of the set-up changes the manager's
-- controllers. The client is the manager's from its creation on. `GenerationChangedPredicate`
-- drops the updates, of any object, that leave `metadata.generation` as it was. An event puts a
-- request on a controller's queue if every filter passes it and some handler returns the request.
pub record IsRuntime {S P B : Type 0} (rt : Runtime S P B) (gathered : B → Sources S)
    (controllers : P → List (Controller S)) (checks : P → List String)
    (enqueues : Controller S → (k : ObjectKind) → Event k → World S → NamespacedName → Bool)
    : Type 0 where
  pub of_new :
      (p : P)
      → gathered (rt.new_controller_managed_by p)
        ≡ record { for = none; owned = []; watched = []; filters = [] }
  pub of_for :
      (k : ObjectKind) (b : B) → gathered (rt.for k b) ≡ record (gathered b) { for = some k }
  pub of_named : (n : String) (b : B) → gathered (rt.named n b) ≡ gathered b
  pub of_owns :
      (k : ObjectKind) (b : B)
      → gathered (rt.owns k b) ≡ record (gathered b) { owned = (gathered b).owned ++ k ∷ [] }
  pub of_watches :
      (k : ObjectKind) (f : ObjectOf k → M S (List NamespacedName)) (b : B)
      → gathered (rt.watches k f b) ≡ record (gathered b) {
        watched = (gathered b).watched ++ record { kind = k; requests = f } ∷ [];
      }
  pub of_event_filter :
      (f : Filter) (b : B)
      → gathered (rt.with_event_filter f b)
        ≡ record (gathered b) { filters = (gathered b).filters ++ f ∷ [] }
  pub complete_ok :
      (r : NamespacedName → M S ReconcileResult) (b : B) (p p' : P)
      → rt.complete r b p ≡ (ok tt, p')
      → controllers p' ≡ controllers p ++ record { sources = gathered b; reconcile = r } ∷ []
  pub complete_checks :
      (r : NamespacedName → M S ReconcileResult) (b : B) (p : P)
      → checks (rt.complete r b p).1 ≡ checks p
  pub complete_client :
      (r : NamespacedName → M S ReconcileResult) (b : B) (p : P)
      → rt.get_client (rt.complete r b p).1 ≡ rt.get_client p
  pub add_to_scheme_same :
      (g : SchemeGroup) (p : P)
      → (controllers (rt.add_to_scheme g p).1 ≡ controllers p)
        × (checks (rt.add_to_scheme g p).1 ≡ checks p)
        × (rt.get_client (rt.add_to_scheme g p).1 ≡ rt.get_client p)
  pub new_manager_ok :
      (o : ManagerOptions) (p p' : P)
      → rt.new_manager o p ≡ (ok tt, p')
      → (controllers p' ≡ []) × (checks p' ≡ [])
  pub healthz_ok :
      (n : String) (p p' : P)
      → rt.add_healthz_check n p ≡ (ok tt, p')
      → (controllers p' ≡ controllers p)
        × (checks p' ≡ checks p ++ n ∷ [])
        × (rt.get_client p' ≡ rt.get_client p)
  pub readyz_ok :
      (n : String) (p p' : P)
      → rt.add_readyz_check n p ≡ (ok tt, p')
      → (controllers p' ≡ controllers p)
        × (checks p' ≡ checks p ++ n ∷ [])
        × (rt.get_client p' ≡ rt.get_client p)
  pub generation_created :
      (k : ObjectKind) (o : ObjectOf k) → rt.generation_changed k (created o) ≡ true
  pub generation_deleted :
      (k : ObjectKind) (o : ObjectOf k) → rt.generation_changed k (deleted o) ≡ true
  pub generation_updated :
      (k : ObjectKind) (old new : ObjectOf k)
      → rt.generation_changed k (updated old new)
        ≡ not ((meta_of k old).generation == (meta_of k new).generation)
  pub enqueued :
      (c : Controller S) (k : ObjectKind) (e : Event k) (w : World S) (req : NamespacedName)
      → enqueues c k e w req ≡ asks rt k e c.sources w req
