-- ===== src/IngressDns/Records.antt =====
-- The A records that `reconcileDNSEndpointsForConfig` writes, and the configurations that are active
-- (internal/controller/routing/ingressdns_controller.go).
use service_router_operator.Base.{
  String, List, [], ◌∷◌, Option, none, some, All, Bool, true, false, not, ◌&&◌, ◌||◌, ◌==◌, ◌≡◌,
  refl, sym, ◌∙◌, ap, subst, arith, any, add, contains, contains-add, if◌then◌else◌, Bool-cases,
  inl, inr, string_eq,
}
use service_router_operator.Api.{NamespacedName, names_Eq, key_of, DnsEndpoint, Endpoint, Gateway}
use service_router_operator.Client.{
  Env, World, Result, ok, err, is_not_found, IsStore, StoredEndpoint, endpoint_kind, call-eq,
  GatewayControllerConfig,
}
use service_router_operator.IngressDns.{
  config_Eq, config_of, is_deleting, active_configs, needs_update, apply_endpoint,
}

active_configs-contains_from :
    (c : GatewayControllerConfig) (gws : List Gateway) (configs : List GatewayControllerConfig)
    → contains c (active_configs gws configs)
      ≡ (contains c configs || any (λ gw. not (is_deleting gw) && config_of gw == c) gws)
unfolding active_configs
active_configs-contains_from c [] configs = ground arith
active_configs-contains_from c (gw ∷ gws) configs = ground (
  arith,
  active_configs-contains_from c gws configs,
  active_configs-contains_from c gws (add (config_of gw) configs),
  contains-add (config_of gw) c configs,
)

-- A configuration is active exactly if a gateway that is not being deleted has it.
pub active_configs-contains :
    (c : GatewayControllerConfig) (gws : List Gateway)
    → contains c (active_configs gws []) ≡ any (λ gw. not (is_deleting gw) && config_of gw == c) gws
active_configs-contains c gws = active_configs-contains_from c gws []

-- The records are of type A.
abbrev pub AllAddresses : List Endpoint → Type 0
AllAddresses = All (λ e. e.record_type ≡ "A")

-- What the server keeps, if anything, has no records of another type.
abbrev pub KeepsAddresses : Option StoredEndpoint → Type 0
KeepsAddresses none = Unit
KeepsAddresses (some v) = AllAddresses v.spec.endpoints

-- The server keeps an endpoint of A records, whose first gives the host the address as its first target.
abbrev pub Resolves : String → String → Option StoredEndpoint → Type 0
Resolves ip host o =
    (v : StoredEndpoint) × (e : Endpoint) × (es : List Endpoint) × (ts : List String) × (o ≡ some v)
    × (v.spec.endpoints ≡ e ∷ es)
    × (e.dns_name ≡ host)
    × (e.targets ≡ ip ∷ ts)
    × AllAddresses v.spec.endpoints

pub Resolves-KeepsAddresses :
    (ip host : String) (o : Option StoredEndpoint) → Resolves ip host o → KeepsAddresses o
Resolves-KeepsAddresses ip host o (v, e, es, ts, kept, _, _, _, addresses) =
    subst KeepsAddresses (sym kept) addresses

first_record :
    (ip host : String) (v : StoredEndpoint) (endpoints : List Endpoint)
    → v.spec.endpoints ≡ endpoints
    → needs_update ip host endpoints ≡ false
    → AllAddresses v.spec.endpoints
    → Resolves ip host (some v)
first_record ip host v [] h u a = cc
first_record ip host v (e ∷ es) h u a = by_targets e.targets refl
  where
    by_targets : (ts : List String) → e.targets ≡ ts → Resolves ip host (some v)
    by_targets [] t = cc (rw t at u)
    by_targets (x ∷ ts) t =
        let u' : (not (x == ip) || not (e.dns_name == host)) ≡ false = rw t at u in
        let host_eq : e.dns_name ≡ host = ground (arith, string_eq.test_iff e.dns_name host) in
        let ip_eq : x ≡ ip = ground (arith, string_eq.test_iff x ip) in
        (v, e, es, ts, refl, h, host_eq, t ∙ ap (λ y. y ∷ ts) ip_eq, a)

module _ {S : Type 0} (env : Env S) (at : S → NamespacedName → Option StoredEndpoint)
    (store : IsStore endpoint_kind env.client.dns_endpoints at) (ip host : String) where
  -- At the key the host resolves to the address; elsewhere the server has what it had.
  abbrev pub Written : Bool → S → S → NamespacedName → Type 0
  Written true s s' k = Resolves ip host (at s' k)
  Written false s s' k = at s' k ≡ at s k

  write-Written :
      (written : DnsEndpoint) (j : NamespacedName) (s s₀ s' : S) (k : NamespacedName)
      → key_of written.meta ≡ j
      → needs_update ip host written.spec.endpoints ≡ false
      → AllAddresses written.spec.endpoints
      → at s k ≡ at s₀ k
      → at s' k ≡ (if key_of written.meta == k then some (endpoint_kind.view written) else at s k)
      → Written (j == k) s₀ s' k
  write-Written written j s s₀ s' k same_key fresh typed same h =
      let chosen : NamespacedName → Option StoredEndpoint =
        λ i. if i == k then some (endpoint_kind.view written) else at s k in
      elim (Bool-cases (j == k)) [
        | inl here ↦ rw here (
            subst (Resolves ip host) (sym (h ∙ (ap chosen same_key ∙ rw here refl))) (
              first_record ip host (endpoint_kind.view written) written.spec.endpoints refl fresh
                typed))
        | inr elsewhere ↦ rw elsewhere (h ∙ (ap chosen same_key ∙ (rw elsewhere same)))
      ]

  pub apply_endpoint-Written :
      (desired : DnsEndpoint) (w w' : World S) (k : NamespacedName)
      → needs_update ip host desired.spec.endpoints ≡ false
      → AllAddresses desired.spec.endpoints
      → KeepsAddresses (at w.server k)
      → apply_endpoint env ip host desired w ≡ (ok tt, w')
      → Written (key_of desired.meta == k) w.server w'.server k
  unfolding apply_endpoint
  apply_endpoint-Written desired w w' k fresh typed old_typed h =
      by_found (env.client.dns_endpoints.get (key_of desired.meta) w.server) refl
    where
      unchanged :
          (p : Result DnsEndpoint × S)
          → env.client.dns_endpoints.get (key_of desired.meta) w.server ≡ p
          → at p.1 k ≡ at w.server k
      unchanged p found =
          ap (λ q. at q.1 k) (sym found) ∙ store.get_same (key_of desired.meta) w.server k

      by_found :
          (p : Result DnsEndpoint × S)
          → env.client.dns_endpoints.get (key_of desired.meta) w.server ≡ p
          → Written (key_of desired.meta == k) w.server w'.server k
      by_found (err e, s) found = elim (Bool-cases (is_not_found e)) [
        | inl gone ↦
            let wrote : env.client.dns_endpoints.create desired s ≡ (ok tt, w'.server) =
              call-eq (env.client.dns_endpoints.create desired) (record w { server = s })
                (rw (found, gone) at h) in
            write-Written desired (key_of desired.meta) s w.server w'.server k refl fresh typed
              (unchanged (err e, s) found) (store.create_ok desired s w'.server k wrote)
        | inr other ↦ cc (rw (found, other) at h)
      ]
      by_found (ok existing, s) found =
          let at_key = store.get_ok (key_of desired.meta) w.server s existing found in
          elim (Bool-cases (needs_update ip host existing.spec.endpoints)) [
            | inl changed ↦
                let written : DnsEndpoint = record {
                  meta = record (existing.meta) { labels = desired.meta.labels };
                  spec = desired.spec;
                } in
                let wrote : env.client.dns_endpoints.patch existing written s ≡ (ok tt, w'.server) =
                  call-eq (env.client.dns_endpoints.patch existing written)
                    (record w { server = s }) (rw (found, changed) at h) in
                write-Written written (key_of desired.meta) s w.server w'.server k at_key.0 fresh
                  typed (unchanged (ok existing, s) found)
                  (store.patch_ok existing written s w'.server k refl
                    (λ here.
                      unchanged (ok existing, s) found
                      ∙ subst (λ j. at w.server j ≡ some (endpoint_kind.view existing))
                          (sym at_key.0 ∙ (names_Eq.test_iff (key_of existing.meta) k).0 here)
                          at_key.1)
                    wrote)
            | inr same ↦
                let left : s ≡ w'.server = ap (λ p. p.1.server) (rw (found, same) at h) in
                let kept : at w'.server k ≡ at w.server k =
                  ap (λ t. at t k) (sym left) ∙ unchanged (ok existing, s) found in
                elim (Bool-cases (key_of desired.meta == k)) [
                  | inr elsewhere ↦ rw elsewhere kept
                  | inl here ↦ rw here (
                      let found_at : at w.server k ≡ some (endpoint_kind.view existing) =
                        subst (λ j. at w.server j ≡ some (endpoint_kind.view existing))
                          ((names_Eq.test_iff (key_of desired.meta) k).0 here) at_key.1 in
                      subst (Resolves ip host) (sym (kept ∙ found_at)) (
                        first_record ip host (endpoint_kind.view existing) existing.spec.endpoints
                          refl same (subst KeepsAddresses found_at old_typed)))
                ]
          ]
