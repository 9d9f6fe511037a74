-- ===== src/Gateway/Istio/Steady.antt =====
-- Later runs of `reconcileIstioGateway`, and `deleteIstioGateway`
-- (internal/controller/routing/gateway_controller.go).
use mathlib.Core.List.{Perm}
use service_router_operator.Base.{
  any-perm, length-perm, distinct-perm, String, List, Option, none, some, true, false, ◌==◌, ◌≡◌,
  refl, sym, ◌∙◌, ap, subst, distinct, if◌then◌else◌, Bool-cases, inl, inr, string_eq, beq_refl,
}
use service_router_operator.Api.{NamespacedName, names_Eq, key_of, ObjectMeta, IstioGateway}
use service_router_operator.Api
use service_router_operator.Client.{
  Env, World, Result, ok, err, is_not_found, IsStore, StoredIstioGateway, istio_gateway_kind,
  call-eq, some-inj, ok-inj,
}
use service_router_operator.Gateway.Istio.{
  istio_gateway_needs_update, generate_istio_gateway, reconcile_istio_gateway, delete_istio_gateway,
}
use service_router_operator.Gateway.Istio.Update.{Agrees}
use service_router_operator.Gateway.Istio.Applied.{
  needs_update_view, Applied, Matches, head-inj, generated_iff, reconcile_istio_gateway-Applied,
}

module _ {S : Type 0} (env : Env S) where
  generated_key :
      (gateway : Api.Gateway) (hosts : List String) (desired : IstioGateway)
      → generate_istio_gateway env gateway hosts ≡ ok desired
      → key_of desired.meta ≡ key_of gateway.meta
  unfolding generate_istio_gateway
  generated_key gateway hosts desired h = ap (λ g. key_of g.meta) (sym (ok-inj h))

  -- What agrees with the Istio Gateway of the hosts does so with that of the hosts in another order.
  Matches-perm :
      (gateway : Api.Gateway) (hosts hosts' : List String) (desired desired' v : IstioGateway)
      → generate_istio_gateway env gateway hosts ≡ ok desired
      → generate_istio_gateway env gateway hosts' ≡ ok desired'
      → Perm hosts hosts'
      → Matches v desired
      → Matches v desired'
  unfolding generate_istio_gateway
  Matches-perm gateway hosts hosts' desired desired' v h h' p m =
      let (b, one, agrees) = subst (Matches v) (sym (ok-inj h)) m in
      let made : IstioGateway = elim (generate_istio_gateway env gateway hosts) [
        | ok g ↦ g
        | err _ ↦ desired
      ] in
      let (l, selector, labels, (a, e, (same, count, tls))) =
        subst (Agrees v made) (sym (head-inj one)) agrees in
      subst (Matches v) (ok-inj h') (
        _,
        refl,
        (
          l,
          selector,
          labels,
          (
            a,
            e,
            (
              λ x. same x ∙ any-perm (λ y. y == x) hosts hosts' p,
              count ∙ length-perm hosts hosts' p,
              tls,
            ),
          ),
        ),
      )

module _ {S : Type 0} (env : Env S) (at : S → NamespacedName → Option StoredIstioGateway)
    (store : IsStore istio_gateway_kind env.client.istio_gateways at) where
  -- Where the kept object needs no update, a run changes nothing, whether it succeeds or fails.
  steady :
      (desired v : IstioGateway) (w w' : World S) (r : Result (Unit {0})) (k : NamespacedName)
      → at w.server (key_of desired.meta) ≡ some (istio_gateway_kind.view v)
      → istio_gateway_needs_update v desired ≡ false
      → reconcile_istio_gateway env desired w ≡ (r, w')
      → at w'.server k ≡ at w.server k
  unfolding reconcile_istio_gateway
  steady desired v w w' r k kept fresh h =
      by_found (env.client.istio_gateways.get (key_of desired.meta) w.server) refl
    where
      read_only :
          (p : Result IstioGateway × S)
          → env.client.istio_gateways.get (key_of desired.meta) w.server ≡ p
          → p.1 ≡ w'.server
          → at w'.server k ≡ at w.server k
      read_only p found left =
          ap (λ t. at t k) (sym left)
          ∙ (ap (λ q. at q.1 k) (sym found) ∙ store.get_same (key_of desired.meta) w.server k)

      by_found :
          (p : Result IstioGateway × S)
          → env.client.istio_gateways.get (key_of desired.meta) w.server ≡ p
          → at w'.server k ≡ at w.server k
      by_found (err e, s) found = elim (Bool-cases (is_not_found e)) [
        | inl gone ↦
            cc (sym kept ∙ store.get_not_found (key_of desired.meta) w.server s e found gone)
        | inr other ↦ read_only (err e, s) found (ap (λ p. p.1.server) (rw (found, other) at h))
      ]
      by_found (ok existing, s) found =
          let same_view : istio_gateway_kind.view existing ≡ istio_gateway_kind.view v =
            some-inj
              (sym (store.get_ok (key_of desired.meta) w.server s existing found).1 ∙ kept) in
          let unchanged = needs_update_view existing v desired same_view ∙ fresh in
          read_only (ok existing, s) found (ap (λ p. p.1.server) (rw (found, unchanged) at h))

  -- Where only this process writes and reads see all earlier writes: once the reconciliation of an
  -- Istio Gateway generated of distinct hosts has succeeded, one of the same hosts in another
  -- order, as a map may give them, changes nothing on the server, whether it succeeds or fails;
  -- what is there agrees with the second one, and every other object is as it was before the first
  -- run.
  pub reconcile_istio_gateway_again :
      (gateway : Api.Gateway) (hosts hosts' : List String) (desired desired' : IstioGateway)
      (w w₁ w₂ : World S) (r : Result (Unit {0})) (k : NamespacedName)
      → generate_istio_gateway env gateway hosts ≡ ok desired
      → generate_istio_gateway env gateway hosts' ≡ ok desired'
      → distinct hosts ≡ true
      → Perm hosts hosts'
      → reconcile_istio_gateway env desired w ≡ (ok tt, w₁)
      → reconcile_istio_gateway env desired' w₁ ≡ (r, w₂)
      → (at w₂.server k ≡ at w₁.server k) × Applied env at store desired' w.server w₂.server k
  reconcile_istio_gateway_again gateway hosts hosts' desired desired' w w₁ w₂ r k generated
        generated' once reordered first second =
      let (v, kept, matches) = rw (beq_refl (key_of desired.meta)) at (
        reconcile_istio_gateway-Applied env at store gateway hosts desired generated once w w₁
          (key_of desired.meta) first) in
      let same_key : key_of desired.meta ≡ key_of desired'.meta =
        generated_key env gateway hosts desired generated
        ∙ sym (generated_key env gateway hosts' desired' generated') in
      let kept' : at w₁.server (key_of desired'.meta) ≡ some (istio_gateway_kind.view v) =
        subst (λ j. at w₁.server j ≡ some (istio_gateway_kind.view v)) same_key kept in
      let matches' =
        Matches-perm env gateway hosts hosts' desired desired' v generated generated' reordered
          matches in
      let once' : distinct hosts' ≡ true = sym (distinct-perm hosts hosts' reordered) ∙ once in
      let fresh = (generated_iff env gateway hosts' desired' v generated' once').1 matches' in
      let same = steady desired' v w₁ w₂ r k kept' fresh second in
      (
        same,
        elim (Bool-cases (key_of desired'.meta == k)) [
          | inl here ↦ rw here (
            v,
            same
                ∙ subst (λ j. at w₁.server j ≡ some (istio_gateway_kind.view v))
                    ((names_Eq.test_iff (key_of desired'.meta) k).0 here) kept',
            matches',
          )
          | inr elsewhere ↦
              let elsewhere' : (key_of desired.meta == k) ≡ false =
                ap (λ j. j == k) same_key ∙ elsewhere in
              rw elsewhere (
                same
                ∙ (rw elsewhere' at (
                    reconcile_istio_gateway-Applied env at store gateway hosts desired generated
                      once w w₁ k first)))
        ],
      )

  -- Where only this process writes and reads see all earlier writes: when the removal of a
  -- gateway's Istio Gateway succeeds, there is none under its key, and every other object is as it
  -- was.
  pub delete_istio_gateway-at :
      (gateway : Api.Gateway) (w w' : World S) (k : NamespacedName)
      → delete_istio_gateway env gateway w ≡ (ok tt, w')
      → at w'.server k ≡ (if key_of gateway.meta == k then none else at w.server k)
  unfolding delete_istio_gateway
  delete_istio_gateway-at gateway w w' k h =
      by_found (env.client.istio_gateways.get (key_of gateway.meta) w.server) refl
    where
      by_found :
          (p : Result IstioGateway × S)
          → env.client.istio_gateways.get (key_of gateway.meta) w.server ≡ p
          → at w'.server k ≡ (if key_of gateway.meta == k then none else at w.server k)
      by_found (err e, s) found = elim (Bool-cases (is_not_found e)) [
        | inr other ↦ cc (rw (found, other) at h)
        | inl gone ↦
            let left : s ≡ w'.server = ap (λ p. p.1.server) (rw (found, gone) at h) in
            let kept : at w'.server k ≡ at w.server k =
              ap (λ t. at t k) (sym left)
              ∙ (ap (λ q. at q.1 k) (sym found)
                  ∙ store.get_same (key_of gateway.meta) w.server k) in
            let absent = store.get_not_found (key_of gateway.meta) w.server s e found gone in
            elim (Bool-cases (key_of gateway.meta == k)) [
              | inl here ↦ rw here (
                  kept
                  ∙ subst (λ j. at w.server j ≡ none)
                      ((names_Eq.test_iff (key_of gateway.meta) k).0 here) absent)
              | inr elsewhere ↦ rw elsewhere kept
            ]
      ]
      by_found (ok existing, s) found =
          let removed : env.client.istio_gateways.delete existing s ≡ (ok tt, w'.server) =
            call-eq (env.client.istio_gateways.delete existing) (record w { server = s })
              (rw found at h) in
          let same_key = (store.get_ok (key_of gateway.meta) w.server s existing found).0 in
          store.delete_ok existing s w'.server k removed
          ∙ (ap (λ j. if j == k then none else at s k) same_key
              ∙ ap (λ o. if key_of gateway.meta == k then none else o)
                  (ap (λ q. at q.1 k) (sym found)
                    ∙ store.get_same (key_of gateway.meta) w.server k))
