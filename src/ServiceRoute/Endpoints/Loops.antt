-- ===== src/ServiceRoute/Endpoints/Loops.antt =====
-- That the two loops of `reconcileDNSEndpoints` succeed where the server is up
-- (internal/controller/routing/serviceroute_controller.go).
use service_router_operator.Base.{
  String, List, [], ◌∷◌, true, false, ◌||◌, Option, none, some, Bool, is_some, ◌≡◌, refl, sym, ◌∙◌,
  ap, subst, inl, inr, arith, All, ◌==◌, if◌then◌else◌, Bool-cases, Option-cases, string_eq, lookup,
  distinct, keys, contains,
}
use service_router_operator.Api.{NamespacedName, names_Eq, key_of, DnsEndpoint}
use service_router_operator.Client.{Answers, Env, World, ok, IsStore, StoredEndpoint, endpoint_kind}
use service_router_operator.ServiceRoute.Endpoints.{
  deep_equal, endpoint_key, create_or_update, create_or_update_loop, delete_stale_loop,
}
use service_router_operator.ServiceRoute.Endpoints.Keys.{
  text_key, text_key_iff, IsEntry, lookup-All,
}
use service_router_operator.ServiceRoute.Endpoints.Write.{create_or_update-Stepped, updated}

pub is_some-lookup :
    (t : String) (m : List (String × DnsEndpoint)) → is_some (lookup t m) ≡ contains t (keys m)
is_some-lookup t [] = refl
is_some-lookup t ((j, e) ∷ m) = ground (arith, is_some-lookup t m)

-- What the server keeps of an endpoint that is there.
abbrev pub kept_as : Option DnsEndpoint → Option StoredEndpoint
kept_as none = none
kept_as (some e) = some (endpoint_kind.view e)

-- The server accepts the endpoint, and what an update of the one at its key makes of that.
abbrev pub Acceptable : (DnsEndpoint → Bool) → DnsEndpoint → Type 0
Acceptable accepts d =
    (accepts d ≡ true)
    × ((old : DnsEndpoint) → key_of old.meta ≡ key_of d.meta → accepts (updated old d) ≡ true)

module _ {S : Type 0} (env : Env S) (at : S → NamespacedName → Option StoredEndpoint)
    (store : IsStore endpoint_kind env.client.dns_endpoints at) {accepts : DnsEndpoint → Bool}
    (up : Answers endpoint_kind env.client.dns_endpoints at accepts) (ns : String) where
  module _ (existing : List (String × DnsEndpoint)) (entries : All (IsEntry ns) existing) where
    -- What is to be created is not there, and what is to be updated is; the server accepts both.
    abbrev pub Ready : S → String × DnsEndpoint → Type 0
    Ready s en =
        (at s (key_of en.1.meta) ≡ kept_as (lookup en.0 existing)) × Acceptable accepts en.1

    create_or_update-ok :
        (t : String) (d : DnsEndpoint) (w : World S)
        → IsEntry ns (t, d)
        → Ready w.server (t, d)
        → (create_or_update env existing t d w).0 ≡ ok tt
    unfolding create_or_update
    create_or_update-ok t d w (te, dn) (ready, accepted) = elim (Option-cases (lookup t existing)) [
      | inl absent ↦
          rw (create_or_update, absent)
            (up.creates d w.server accepted.0 (ready ∙ ap kept_as absent))
      | inr (old, present) ↦ elim (Bool-cases (deep_equal old.spec d.spec)) [
        | inl same ↦ rw (create_or_update, present, same) refl
        | inr different ↦
            let (oe, on) = lookup-All (IsEntry ns) t old existing entries present in
            let same_key : key_of old.meta ≡ key_of d.meta =
              (names_Eq.test_iff (key_of old.meta) (key_of d.meta)).0 (
                text_key_iff (key_of old.meta) (key_of d.meta) (on ∙ sym dn)
                ∙ (string_eq.test_iff (endpoint_key old) (endpoint_key d)).1 (sym oe ∙ te)) in
            rw (create_or_update, present, different)
              (up.patches old (updated old d) w.server (accepted.1 old same_key) refl (
                subst (λ k. at w.server k ≡ some (endpoint_kind.view old)) (sym same_key)
                  (ready ∙ ap kept_as present)))
      ]
    ]

    Ready-step :
        (t : String) (s s₁ : S) (ds : List (String × DnsEndpoint))
        → contains t (keys ds) ≡ false
        → ((k : NamespacedName) → k.namespace ≡ ns → (text_key k == t) ≡ false → at s₁ k ≡ at s k)
        → All (IsEntry ns) ds
        → All (Ready s) ds
        → All (Ready s₁) ds
    Ready-step t s s₁ [] apart same entry ready = tt
    Ready-step t s s₁ ((u, d) ∷ ds) apart same ((ue, dn), entry) ((r, accepted), ready) = (
      (
        same (key_of d.meta) dn
              (ground (arith, string_eq.test_iff u t, string_eq.test_iff (endpoint_key d) t))
            ∙ r,
        accepted,
      ),
      Ready-step t s s₁ ds (ground arith) same entry ready,
    )

    pub create_or_update_loop-ok :
        (ds : List (String × DnsEndpoint)) (w : World S)
        → All (IsEntry ns) ds
        → distinct (keys ds) ≡ true
        → All (Ready w.server) ds
        → (create_or_update_loop env existing ds w).0 ≡ ok tt
    unfolding create_or_update_loop
    create_or_update_loop-ok [] w entry once ready = refl
    create_or_update_loop-ok ((t, d) ∷ ds) w ((te, dn), more) once (r, ready) =
        let w₁ : World S = (create_or_update env existing t d w).1 in
        let done : create_or_update env existing t d w ≡ (ok tt, w₁) =
          ap (λ x. (x, w₁)) (create_or_update-ok t d w (te, dn) r) in
        let same : (k : NamespacedName)
            → k.namespace ≡ ns
            → (text_key k == t) ≡ false
            → at w₁.server k ≡ at w.server k =
          λ k kn other.
            let apart : (text_key k == endpoint_key d) ≡ false = rw (sym te) other in
            (create_or_update-Stepped env at store ns existing entries t d w w₁ k (te, dn) kn
                (λ here. cc (sym here ∙ apart)) done).1
              apart in
        rw (create_or_update_loop, done)
          (create_or_update_loop-ok ds w₁ more (ground arith)
            (Ready-step t w.server w₁.server ds (ground arith) same more ready))

  module _ (desired : List (String × DnsEndpoint)) where
    -- What is stale is there.
    abbrev pub Present : S → String × DnsEndpoint → Type 0
    Present s en = (is_some (lookup en.0 desired) || is_some (at s (key_of en.1.meta))) ≡ true

    Present-step :
        (old : DnsEndpoint) (s s₁ : S) (es : List (String × DnsEndpoint))
        → contains (endpoint_key old) (keys es) ≡ false
        → old.meta.namespace ≡ ns
        → ((k : NamespacedName) → at s₁ k ≡ (if key_of old.meta == k then none else at s k))
        → All (IsEntry ns) es
        → All (Present s) es
        → All (Present s₁) es
    Present-step old s s₁ [] apart on gone entry present = tt
    Present-step old s s₁ ((t, e) ∷ es) apart on gone ((te, en), entry) (p, present) = (
      ground (
        arith,
        gone (key_of e.meta),
        text_key_iff (key_of old.meta) (key_of e.meta) (on ∙ sym en),
        string_eq.test_iff t (endpoint_key old),
        string_eq.test_iff (endpoint_key old) (endpoint_key e),
      ),
      Present-step old s s₁ es (ground arith) on gone entry present,
    )

    pub delete_stale_loop-ok :
        (es : List (String × DnsEndpoint)) (w : World S)
        → All (IsEntry ns) es
        → distinct (keys es) ≡ true
        → All (Present w.server) es
        → (delete_stale_loop env desired es w).0 ≡ ok tt
    unfolding delete_stale_loop
    delete_stale_loop-ok [] w entry once present = refl
    delete_stale_loop-ok ((t, old) ∷ es) w ((te, on), entry) once (p, present) =
        elim (Option-cases (lookup t desired)) [
          | inr (d, wanted) ↦
              rw (delete_stale_loop, wanted)
                (delete_stale_loop-ok es w entry (ground arith) present)
          | inl stale ↦
              let s₁ = (env.client.dns_endpoints.delete old w.server).1 in
              let deleted : env.client.dns_endpoints.delete old w.server ≡ (ok tt, s₁) =
                ap (λ x. (x, s₁)) (up.deletes old w.server (rw stale at p)) in
              rw (delete_stale_loop, stale, deleted)
                (delete_stale_loop-ok es (record w { server = s₁ }) entry (ground arith)
                  (Present-step old w.server s₁ es
                    (subst (λ x. contains x (keys es) ≡ false) te (ground arith)) on
                    (λ k. store.delete_ok old w.server s₁ k deleted) entry present))
        ]
