-- ===== src/Gateway/Istio/Applied.antt =====
-- What `reconcileIstioGateway` leaves on the server
-- (internal/controller/routing/gateway_controller.go).
use service_router_operator.Base.{
  String, List, [], ◌∷◌, Option, some, true, false, ◌==◌, ◌≡◌, ◌↔◌, refl, sym, ◌∙◌, ap, subst,
  distinct, if◌then◌else◌, Bool-cases, inl, inr, string_eq,
}
use service_router_operator.Api.{NamespacedName, names_Eq, key_of, ObjectMeta, IstioGateway}
use service_router_operator.Api
use service_router_operator.Client.{
  Env, World, ok-inj, Result, ok, err, is_not_found, IsStore, StoredIstioGateway,
  istio_gateway_kind, call-eq,
}
use service_router_operator.Gateway.Istio.{
  istio_gateway_needs_update, generate_istio_gateway, reconcile_istio_gateway,
}
use service_router_operator.Gateway.Istio.Update.{Agrees, needs_update-Agrees}

-- The comparison reads only what the server keeps.
pub needs_update_view :
    (a b desired : IstioGateway)
    → istio_gateway_kind.view a ≡ istio_gateway_kind.view b
    → istio_gateway_needs_update a desired ≡ istio_gateway_needs_update b desired
unfolding istio_gateway_needs_update
needs_update_view a b desired h =
    ap
      (λ v.
        istio_gateway_needs_update
          (record { meta = record (a.meta) { labels = v.labels }; spec = v.spec }) desired)
      h

-- The existing Istio Gateway agrees with the one server of the desired one, and with the rest of it.
abbrev pub Matches : IstioGateway → IstioGateway → Type 0
Matches existing desired =
    (b : Api.Server) × (desired.spec.servers ≡ b ∷ []) × Agrees existing desired b

pub head-inj : {a b : Api.Server} → a ∷ [] ≡ b ∷ [] → a ≡ b
head-inj {a = a} h = ap (λ l. elim l [ [] ↦ a | x ∷ _ ↦ x ]) h

-- Whether it agrees is read off what the server keeps.
pub Matches-view :
    (a b desired : IstioGateway)
    → istio_gateway_kind.view a ≡ istio_gateway_kind.view b
    → Matches a desired
    → Matches b desired
Matches-view a b desired h =
    subst
      (λ v.
        Matches (record { meta = record (a.meta) { labels = v.labels }; spec = v.spec }) desired)
      h

module _ {S : Type 0} (env : Env S) where
  -- What is generated has one server, of the hosts.
  pub generated_server :
      (gateway : Api.Gateway) (hosts : List String) (desired : IstioGateway)
      → generate_istio_gateway env gateway hosts ≡ ok desired
      → (b : Api.Server) × (desired.spec.servers ≡ b ∷ []) × (b.hosts ≡ hosts)
  unfolding generate_istio_gateway
  generated_server gateway hosts desired h =
      subst (λ g. (b : Api.Server) × (g.spec.servers ≡ b ∷ []) × (b.hosts ≡ hosts)) (ok-inj h)
        (_, refl, refl)

  -- An Istio Gateway with the generated labels and spec agrees with what is generated.
  generated-Matches :
      (gateway : Api.Gateway) (hosts : List String) (desired : IstioGateway) (m : ObjectMeta)
      → generate_istio_gateway env gateway hosts ≡ ok desired
      → Matches
          (record { meta = record m { labels = desired.meta.labels }; spec = desired.spec })
          desired
  unfolding generate_istio_gateway
  generated-Matches gateway hosts desired m h =
      subst (λ g. Matches (record { meta = record m { labels = g.meta.labels }; spec = g.spec }) g)
        (ok-inj h)
        (
          _,
          refl,
          (refl, (refl, tt), (refl, (refl, tt)), (_, refl, ((λ h. refl), refl, (refl, refl)))),
        )

  -- No update is needed exactly if the kept object agrees with what is generated.
  pub generated_iff :
      (gateway : Api.Gateway) (hosts : List String) (desired existing : IstioGateway)
      → generate_istio_gateway env gateway hosts ≡ ok desired
      → distinct hosts ≡ true
      → (istio_gateway_needs_update existing desired ≡ false) ↔ Matches existing desired
  generated_iff gateway hosts desired existing h once =
      let (b, one, of_hosts) = generated_server gateway hosts desired h in
      let once' : distinct b.hosts ≡ true = rw of_hosts once in
      (
        (λ e. (b, one, (needs_update-Agrees existing desired b one once').0 e)),
        λ (c, one', agrees).
            (needs_update-Agrees existing desired c one'
                (subst (λ x. distinct x.hosts ≡ true) (head-inj (sym one ∙ one')) once')).1
              agrees,
      )

  module _ (at : S → NamespacedName → Option StoredIstioGateway)
      (store : IsStore istio_gateway_kind env.client.istio_gateways at) where
    -- What is left at a key: at the gateway's own an Istio Gateway that agrees with the desired one;
    -- elsewhere what was there.
    abbrev pub Applied : IstioGateway → S → S → NamespacedName → Type 0
    Applied desired s s' k =
        if key_of desired.meta == k
        then ((v : IstioGateway) × (at s' k ≡ some (istio_gateway_kind.view v)) × Matches v desired)
        else (at s' k ≡ at s k)

    module _ (gateway : Api.Gateway) (hosts : List String) (desired : IstioGateway)
        (generated : generate_istio_gateway env gateway hosts ≡ ok desired)
        (once : distinct hosts ≡ true) where
      -- The object that is written agrees.
      written-Applied :
          (written : IstioGateway) (s s' : S) (k : NamespacedName)
          → key_of written.meta ≡ key_of desired.meta
          → written.meta.labels ≡ desired.meta.labels
          → written.spec ≡ desired.spec
          → at s' k
            ≡ (if key_of written.meta == k then some (istio_gateway_kind.view written) else at s k)
          → Applied desired s s' k
      written-Applied written s s' k same_key labels spec h =
          let chosen : NamespacedName → Option StoredIstioGateway =
            λ j. if j == k then some (istio_gateway_kind.view written) else at s k in
          elim (Bool-cases (key_of desired.meta == k)) [
            | inl here ↦ rw here (
              written,
              h ∙ (ap chosen same_key ∙ rw here refl),
              Matches-view
                  (record {
                    meta = record (written.meta) { labels = desired.meta.labels };
                    spec = desired.spec;
                  })
                  written desired
                  (ap (λ p. record { labels = desired.meta.labels; spec = p }) (sym spec)
                    ∙ ap (λ l. record { labels = l; spec = written.spec }) (sym labels))
                  (generated-Matches gateway hosts desired written.meta generated),
            )
            | inr elsewhere ↦ rw elsewhere (h ∙ (ap chosen same_key ∙ rw elsewhere refl))
          ]

      -- Where only this process writes and reads see all earlier writes: when the reconciliation of
      -- a generated Istio Gateway with distinct hosts succeeds, the server has one under its key
      -- that agrees with it: the same hosts, in any order, the selector, the labels, of which it
      -- may have more, and the TLS settings, which it may lack; and every other object is as it
      -- was.
      pub reconcile_istio_gateway-Applied :
          (w w' : World S) (k : NamespacedName)
          → reconcile_istio_gateway env desired w ≡ (ok tt, w')
          → Applied desired w.server w'.server k
      unfolding reconcile_istio_gateway
      reconcile_istio_gateway-Applied w w' k h =
          by_found (env.client.istio_gateways.get (key_of desired.meta) w.server) refl
        where
          unchanged :
              (p : Result IstioGateway × S)
              → env.client.istio_gateways.get (key_of desired.meta) w.server ≡ p
              → (j : NamespacedName) (written : IstioGateway)
              → (if key_of written.meta == j
                  then some (istio_gateway_kind.view written)
                  else at p.1 j)
                ≡ (if key_of written.meta == j
                    then some (istio_gateway_kind.view written)
                    else at w.server j)
          unchanged p found j written =
              ap
                (λ o.
                  if key_of written.meta == j then some (istio_gateway_kind.view written) else o)
                (ap (λ q. at q.1 j) (sym found) ∙ store.get_same (key_of desired.meta) w.server j)

          by_found :
              (p : Result IstioGateway × S)
              → env.client.istio_gateways.get (key_of desired.meta) w.server ≡ p
              → Applied desired w.server w'.server k
          by_found (err e, s) found = elim (Bool-cases (is_not_found e)) [
            | inl gone ↦
                let wrote : env.client.istio_gateways.create desired s ≡ (ok tt, w'.server) =
                  call-eq (env.client.istio_gateways.create desired) (record w { server = s })
                    (rw (found, gone) at h) in
                written-Applied desired w.server w'.server k refl refl refl (
                  store.create_ok desired s w'.server k wrote
                  ∙ unchanged (err e, s) found k desired)
            | inr other ↦ cc (rw (found, other) at h)
          ]
          by_found (ok existing, s) found =
              elim (Bool-cases (istio_gateway_needs_update existing desired)) [
                | inl changed ↦
                    let written : IstioGateway = record {
                      meta = record (existing.meta) { labels = desired.meta.labels };
                      spec = desired.spec;
                    } in
                    let wrote : env.client.istio_gateways.patch existing written s
                        ≡ (ok tt, w'.server) =
                      call-eq (env.client.istio_gateways.patch existing written)
                        (record w { server = s }) (rw (found, changed) at h) in
                    written-Applied written w.server w'.server k (store.get_ok _ _ _ _ found).0 refl
                      refl
                      (store.patch_ok existing written s w'.server k refl
                          (λ here.
                            ap (λ q. at q.1 k) (sym found)
                            ∙ (store.get_same (key_of desired.meta) w.server k
                                ∙ subst
                                    (λ j. at w.server j ≡ some (istio_gateway_kind.view existing))
                                    (sym (store.get_ok _ _ _ _ found).0
                                      ∙ (names_Eq.test_iff (key_of existing.meta) k).0 here)
                                    (store.get_ok _ _ _ _ found).1))
                          wrote
                        ∙ unchanged (ok existing, s) found k written)
                | inr same ↦
                    let left : s ≡ w'.server = ap (λ p. p.1.server) (rw (found, same) at h) in
                    let kept : at w'.server k ≡ at w.server k =
                      ap (λ t. at t k) (sym left)
                      ∙ (ap (λ q. at q.1 k) (sym found)
                          ∙ store.get_same (key_of desired.meta) w.server k) in
                    elim (Bool-cases (key_of desired.meta == k)) [
                      | inl here ↦ rw here (
                        existing,
                        kept
                            ∙ subst (λ j. at w.server j ≡ some (istio_gateway_kind.view existing))
                                ((names_Eq.test_iff (key_of desired.meta) k).0 here)
                                (store.get_ok (key_of desired.meta) w.server s existing found).1,
                        (generated_iff gateway hosts desired existing generated once).0 same,
                      )
                      | inr elsewhere ↦ rw elsewhere kept
                    ]
              ]
