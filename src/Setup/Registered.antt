-- ===== src/Setup/Registered.antt =====
-- The controllers that `SetupWithManager` leaves with the manager, for each of the six
-- (internal/controller).
use mathlib.Core.List.{append-nil, append_assoc}
use service_router_operator.Base.{String, List, [], ◌∷◌, ◌++◌, Bool, ◌≡◌, refl, sym, subst, ◌∙◌, ap}
use service_router_operator.Api.{NamespacedName}
use service_router_operator.Client.{Env, World, Result, ok, err}
use service_router_operator.Setup.ControllerRuntime.{
  Runtime, IsRuntime, Controller, Sources, Event, SchemeGroup, ObjectKind, istio_group, core_group,
  external_dns_group, routing_group,
}
use service_router_operator.Setup.{
  Step, ◌then_try◌, cluster_identity_setup, dns_configuration_setup, dns_policy_setup,
  gateway_setup, ingress_dns_setup, service_route_setup, service_route_controller_setup,
  gateway_controller_setup,
}
use service_router_operator.Setup.Controllers.{
  cluster_identity_controller, dns_configuration_controller, dns_policy_controller,
  ingress_dns_controller, service_route_controller, gateway_controller,
}

module _ {S P B : Type 0} (rt : Runtime S P B) {gathered : B → Sources S}
    {controllers : P → List (Controller S)} {checks : P → List String}
    {enqueues : Controller S → (k : ObjectKind) → Event k → World S → NamespacedName → Bool}
    (law : IsRuntime rt gathered controllers checks enqueues) where
  -- The manager has the same controllers, checks and client, but for the controllers `cs` at the end.
  abbrev pub Adds : List (Controller S) → P → P → Type 0
  Adds cs p p' =
      (controllers p' ≡ controllers p ++ cs)
      × (checks p' ≡ checks p)
      × (rt.get_client p' ≡ rt.get_client p)

  completed :
      (b : B) (p p' : P) (c : Controller S)
      → rt.complete c.reconcile b p ≡ (ok tt, p')
      → gathered b ≡ c.sources
      → Adds (c ∷ []) p p'
  completed b p p' c h e = (
    law.complete_ok c.reconcile b p p' h
        ∙ ap (λ s. controllers p ++ record { sources = s; reconcile = c.reconcile } ∷ []) e,
    subst (λ q. checks q.1 ≡ checks p) h (law.complete_checks c.reconcile b p),
    subst (λ q. rt.get_client q.1 ≡ rt.get_client p) h (law.complete_client c.reconcile b p),
  )

  -- Both steps succeeded.
  pub then_try-ok :
      (s k : Step P) (p p' : P)
      → (s then_try k) p ≡ (ok tt, p')
      → (p₁ : P) × (s p ≡ (ok tt, p₁)) × (k p₁ ≡ (ok tt, p'))
  then_try-ok s k p p' h = go (s p) refl
    where
      go :
          (q : Result (Unit {0}) × P)
          → s p ≡ q
          → (p₁ : P) × (s p ≡ (ok tt, p₁)) × (k p₁ ≡ (ok tt, p'))
      go (ok _, p₁) e = (p₁, e, rw e at h)
      go (err x, p₁) e = cc (ap (λ q. q.0) (rw e at h))

  pub Adds-trans :
      (cs ds : List (Controller S)) (p p₁ p' : P)
      → Adds cs p p₁
      → Adds ds p₁ p'
      → Adds (cs ++ ds) p p'
  Adds-trans cs ds p p₁ p' (c, k, t) (d, l, u) =
      (d ∙ (ap (λ l. l ++ ds) c ∙ append_assoc (controllers p) cs ds), l ∙ k, u ∙ t)

  scheme_Adds : (g : SchemeGroup) (p p' : P) → rt.add_to_scheme g p ≡ (ok tt, p') → Adds [] p p'
  scheme_Adds g p p' h =
      let (c, k, t) = law.add_to_scheme_same g p in
      (
        subst (λ q. controllers q.1 ≡ controllers p ++ []) h (c ∙ sym (append-nil (controllers p))),
        subst (λ q. checks q.1 ≡ checks p) h k,
        subst (λ q. rt.get_client q.1 ≡ rt.get_client p) h t,
      )

  module _ (env : Env S) (p p' : P) where
    pub cluster_identity_setup-Adds :
        cluster_identity_setup rt env p ≡ (ok tt, p')
        → Adds (cluster_identity_controller env ∷ []) p p'
    unfolding cluster_identity_setup
    cluster_identity_setup-Adds h =
        completed _ p p' (cluster_identity_controller env) h
          (rw (law.of_watches, law.of_for, law.of_new) refl)

    pub dns_configuration_setup-Adds :
        dns_configuration_setup rt env p ≡ (ok tt, p')
        → Adds (dns_configuration_controller env ∷ []) p p'
    unfolding dns_configuration_setup
    dns_configuration_setup-Adds h =
        completed _ p p' (dns_configuration_controller env) h (rw (law.of_for, law.of_new) refl)

    pub dns_policy_setup-Adds :
        dns_policy_setup rt env p ≡ (ok tt, p') → Adds (dns_policy_controller env ∷ []) p p'
    unfolding dns_policy_setup
    dns_policy_setup-Adds h =
        completed _ p p' (dns_policy_controller env) h
          (rw (law.of_watches, law.of_watches, law.of_for, law.of_new) refl)

    pub ingress_dns_setup-Adds :
        ingress_dns_setup rt env p ≡ (ok tt, p') → Adds (ingress_dns_controller env ∷ []) p p'
    unfolding ingress_dns_setup
    ingress_dns_setup-Adds h = completed _ p p' (ingress_dns_controller env) h (
        rw
          (law.of_watches, law.of_watches, law.of_watches, law.of_watches, law.of_named, law.of_new)
          refl)

    service_route_controller_setup-Adds :
        service_route_controller_setup rt env p ≡ (ok tt, p')
        → Adds (service_route_controller env ∷ []) p p'
    service_route_controller_setup-Adds h = completed _ p p' (service_route_controller env) h (
        rw (law.of_watches, law.of_watches, law.of_watches, law.of_owns, law.of_for, law.of_new)
          refl)

    gateway_controller_setup-Adds :
        gateway_controller_setup rt env p ≡ (ok tt, p') → Adds (gateway_controller rt env ∷ []) p p'
    gateway_controller_setup-Adds h = completed _ p p' (gateway_controller rt env) h (
        rw
          (
            law.of_watches, law.of_watches, law.of_watches, law.of_owns, law.of_event_filter,
            law.of_for, law.of_new,
          )
          refl)

  module _ (env : Env S) (p p' : P) where
    pub service_route_setup-Adds :
        service_route_setup rt env p ≡ (ok tt, p') → Adds (service_route_controller env ∷ []) p p'
    unfolding service_route_setup
    service_route_setup-Adds h =
        let (p₁, added, built) =
          then_try-ok (rt.add_to_scheme external_dns_group) (service_route_controller_setup rt env)
            p p' h in
        Adds-trans [] _ p p₁ p' (scheme_Adds external_dns_group p p₁ added)
          (service_route_controller_setup-Adds env p₁ p' built)

    pub gateway_setup-Adds :
        gateway_setup rt env p ≡ (ok tt, p') → Adds (gateway_controller rt env ∷ []) p p'
    unfolding gateway_setup
    gateway_setup-Adds h =
        let last = gateway_controller_setup rt env in
        let routing_step = rt.add_to_scheme routing_group then_try last in
        let dns_step = rt.add_to_scheme external_dns_group then_try routing_step in
        let core_step = rt.add_to_scheme core_group then_try dns_step in
        let (p₁, istio, h₁) = then_try-ok (rt.add_to_scheme istio_group) core_step p p' h in
        let (p₂, core, h₂) = then_try-ok (rt.add_to_scheme core_group) dns_step p₁ p' h₁ in
        let (p₃, dns, h₃) =
          then_try-ok (rt.add_to_scheme external_dns_group) routing_step p₂ p' h₂ in
        let (p₄, routing, built) = then_try-ok (rt.add_to_scheme routing_group) last p₃ p' h₃ in
        let schemes =
          Adds-trans [] [] p p₂ p₄
            (Adds-trans [] [] p p₁ p₂ (scheme_Adds istio_group p p₁ istio)
              (scheme_Adds core_group p₁ p₂ core))
            (Adds-trans [] [] p₂ p₃ p₄ (scheme_Adds external_dns_group p₂ p₃ dns)
              (scheme_Adds routing_group p₃ p₄ routing)) in
        Adds-trans [] _ p p₄ p' schemes (gateway_controller_setup-Adds env p₄ p' built)
