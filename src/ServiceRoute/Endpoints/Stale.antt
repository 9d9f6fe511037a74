-- ===== src/ServiceRoute/Endpoints/Stale.antt =====
-- What the loop that deletes the stale endpoints leaves on the server
-- (internal/controller/routing/serviceroute_controller.go).
use service_router_operator.Base.{
  String, List, [], ◌∷◌, Bool, false, Option, none, some, ◌≡◌, sym, ◌∙◌, ap, inl, inr, arith, All,
  if◌then◌else◌, Option-cases, string_eq, lookup, keys, contains,
}
use service_router_operator.Api.{NamespacedName, names_Eq, key_of, DnsEndpoint}
use service_router_operator.Client.{
  Env, World, ok, call, IsStore, StoredEndpoint, endpoint_kind, chain-eq-ok, call-eq,
}
use service_router_operator.ServiceRoute.Endpoints.{delete_stale_loop}
use service_router_operator.ServiceRoute.Endpoints.Keys.{text_key, text_key_iff, IsEntry}

-- The text is a key of the second map, and none of the first.
abbrev pub is_stale : List (String × DnsEndpoint) → List (String × DnsEndpoint) → String → Bool
is_stale desired existing t = elim (lookup t desired) [
  | some _ ↦ false
  | none ↦ contains t (keys existing)
]

module _ {S : Type 0} (env : Env S) (at : S → NamespacedName → Option StoredEndpoint)
    (store : IsStore endpoint_kind env.client.dns_endpoints at) (ns : String)
    (desired : List (String × DnsEndpoint)) where
  pub delete_stale_loop-at :
      (es : List (String × DnsEndpoint)) (w w' : World S) (k : NamespacedName)
      → All (IsEntry ns) es
      → k.namespace ≡ ns
      → delete_stale_loop env desired es w ≡ (ok tt, w')
      → at w'.server k ≡ (if is_stale desired es (text_key k) then none else at w.server k)
  unfolding delete_stale_loop
  delete_stale_loop-at [] w w' k entries kn h = ground (arith, ap (λ p. at p.1.server k) h)
  delete_stale_loop-at ((t, old) ∷ es) w w' k ((te, on), more) kn h =
      elim (Option-cases (lookup t desired)) [
        | inr (d, wanted) ↦ ground (
          arith,
          delete_stale_loop-at es w w' k more kn (rw (wanted, delete_stale_loop) at h),
          string_eq.test_iff t (text_key k),
          ap (λ u. lookup u desired),
        )
        | inl unwanted ↦
            let h' = rw (unwanted, delete_stale_loop) at h in
            let (u, w₁, deleted, rest) =
              chain-eq-ok (call (env.client.dns_endpoints.delete old) w)
                (λ _. delete_stale_loop env desired es) h' in
            ground (
              arith,
              delete_stale_loop-at es w₁ w' k more kn rest,
              store.delete_ok old w.server w₁.server k
                  (call-eq (env.client.dns_endpoints.delete old) w deleted),
              text_key_iff (key_of old.meta) k (on ∙ sym kn),
              string_eq.test_iff t (text_key k),
            )
      ]
