-- ===== src/ServiceRoute/Endpoints/Listed.antt =====
-- The maps that `reconcileDNSEndpoints` builds of the desired and of the listed endpoints
-- (internal/controller/routing/serviceroute_controller.go).
use service_router_operator.Base.{
  String, List, [], ◌∷◌, true, Option, none, some, ◌≡◌, refl, sym, ◌∙◌, subst, arith, any, All,
  ◌==◌, if◌then◌else◌, string_eq, lookup, lookup-assign, assign,
}
use service_router_operator.Api.{NamespacedName, names_Eq, key_of, DnsEndpoint, ServiceRoute}
use service_router_operator.Client.{
  Env, World, ok, call, pure, IsStore, StoredEndpoint, endpoint_kind, chain-eq-ok, call-eq, selects,
  ListOptions,
}
use service_router_operator.ServiceRoute.Endpoints.{
  endpoint_key, endpoint_map, namespace_set, route_selector, list_existing,
}
use service_router_operator.ServiceRoute.Endpoints.Keys.{
  text_key, text_key_iff, IsEntry, lookup-All,
}

-- The last endpoint of the list under a text.
abbrev pub last_of : String → List DnsEndpoint → Option DnsEndpoint
last_of t [] = none
last_of t (e ∷ es) = elim (last_of t es) [
  | some d ↦ some d
  | none ↦ if endpoint_key e == t then some e else none
]

abbrev or_else : Option DnsEndpoint → Option DnsEndpoint → Option DnsEndpoint
or_else none o = o
or_else (some d) o = some d

lookup-endpoint_map_from :
    (t : String) (es : List DnsEndpoint) (m : List (String × DnsEndpoint))
    → lookup t (endpoint_map es m) ≡ or_else (last_of t es) (lookup t m)
unfolding endpoint_map
lookup-endpoint_map_from t [] m = refl
lookup-endpoint_map_from t (e ∷ es) m = ground (
  arith,
  lookup-endpoint_map_from t es (assign (endpoint_key e) e m),
  lookup-assign (endpoint_key e) t e m,
)

pub lookup-endpoint_map :
    (t : String) (es : List DnsEndpoint) → lookup t (endpoint_map es []) ≡ last_of t es
lookup-endpoint_map t es = ground (arith, lookup-endpoint_map_from t es [])

-- The endpoints all stand in the namespace.
abbrev pub AllIn : String → List DnsEndpoint → Type 0
AllIn ns = All (λ e. e.meta.namespace ≡ ns)

namespace_set_more :
    (ns : String) (es : List DnsEndpoint) → AllIn ns es → namespace_set es (ns ∷ []) ≡ ns ∷ []
unfolding namespace_set
namespace_set_more ns [] h = refl
namespace_set_more ns (e ∷ es) (p, h) =
    rw (p, (string_eq.test_iff ns ns).1 refl) (namespace_set_more ns es h)

pub namespace_set_one :
    (ns : String) (e : DnsEndpoint) (es : List DnsEndpoint)
    → AllIn ns (e ∷ es)
    → namespace_set (e ∷ es) [] ≡ ns ∷ []
unfolding namespace_set
namespace_set_one ns e es (p, h) = rw p (namespace_set_more ns es h)

pub AllIn-IsEntry :
    (ns : String) (es : List DnsEndpoint)
    → AllIn ns es
    → All (λ e. IsEntry ns (endpoint_key e, e)) es
AllIn-IsEntry ns [] h = tt
AllIn-IsEntry ns (e ∷ es) (p, h) = ((refl, p), AllIn-IsEntry ns es h)

pub any-text_key :
    (ns : String) (es : List DnsEndpoint) (k : NamespacedName)
    → AllIn ns es
    → k.namespace ≡ ns
    → any (λ e. endpoint_key e == text_key k) es ≡ any (λ e. key_of e.meta == k) es
any-text_key ns [] k h kn = refl
any-text_key ns (e ∷ es) k (p, h) kn =
    ground (arith, any-text_key ns es k h kn, text_key_iff (key_of e.meta) k (p ∙ sym kn))

-- The entry of a listed endpoint: what the server keeps of it, and where it stands.
abbrev pub Known : (NamespacedName → Option StoredEndpoint) → String → String × DnsEndpoint → Type 0
Known at ns en = (at (key_of en.1.meta) ≡ some (endpoint_kind.view en.1)) × IsEntry ns en

pub Known-IsEntry :
    (at : NamespacedName → Option StoredEndpoint) (ns : String) (m : List (String × DnsEndpoint))
    → All (Known at ns) m
    → All (IsEntry ns) m
Known-IsEntry at ns [] h = tt
Known-IsEntry at ns (en ∷ m) ((_, p), h) = (p, Known-IsEntry at ns m h)

module _ {S : Type 0} (env : Env S) (at : S → NamespacedName → Option StoredEndpoint)
    (store : IsStore endpoint_kind env.client.dns_endpoints at) (route : ServiceRoute) where
  abbrev pub own : String
  own = route.meta.namespace

  abbrev pub selector : ListOptions
  selector = route_selector own (key_of route.meta)

  pub list_existing_one :
      (w w₁ : World S) (existing : List DnsEndpoint)
      → list_existing env route (own ∷ []) [] w ≡ (ok existing, w₁)
      → env.client.dns_endpoints.list selector w.server ≡ (ok existing, w₁.server)
  unfolding list_existing
  list_existing_one w w₁ existing h =
      let (items, w₂, listed, same) =
        chain-eq-ok (call (env.client.dns_endpoints.list selector) w) (λ items. pure items) h in
      call-eq (env.client.dns_endpoints.list selector) w (listed ∙ same)

  pub Known-listed :
      (s : S) (items : List DnsEndpoint)
      → All
          (λ e.
            (at s (key_of e.meta) ≡ some (endpoint_kind.view e))
            × (selects selector (key_of e.meta) e.meta.labels ≡ true))
          items
      → All (λ e. Known (at s) own (endpoint_key e, e)) items
  Known-listed s [] h = tt
  Known-listed s (e ∷ es) ((kept, selected), h) = (
    (kept, (refl, sym ((string_eq.test_iff own e.meta.namespace).0 (ground arith)))),
    Known-listed s es h,
  )

  pub AllIn-Known :
      (s : S) (items : List DnsEndpoint)
      → All (λ e. Known (at s) own (endpoint_key e, e)) items
      → AllIn own items
  AllIn-Known s [] h = tt
  AllIn-Known s (e ∷ es) ((_, (_, p)), h) = (p, AllIn-Known s es h)

  pub Known-lookup :
      (s : S) (m : List (String × DnsEndpoint)) (k : NamespacedName) (old : DnsEndpoint)
      → All (Known (at s) own) m
      → k.namespace ≡ own
      → lookup (text_key k) m ≡ some old
      → at s k ≡ some (endpoint_kind.view old)
  Known-lookup s m k old entries kn found =
      let (kept, (te, on)) = lookup-All (Known (at s) own) (text_key k) old m entries found in
      let same : key_of old.meta ≡ k = (names_Eq.test_iff (key_of old.meta) k).0 (
        text_key_iff (key_of old.meta) k (on ∙ sym kn)
        ∙ (string_eq.test_iff (endpoint_key old) (text_key k)).1 (sym te)) in
      subst (λ j. at s j ≡ some (endpoint_kind.view old)) same kept
