-- ===== src/DnsPolicy/Decision.antt =====
-- Which status a policy gets (internal/controller/routing/dnspolicy_controller.go).
use service_router_operator.Base.{
  String, none, true, ◌&&◌, ◌==◌, ◌≡◌, ◌↔◌, refl, sym, ◌∙◌, any, contains, Bool-cases, inl, inr,
  string_eq,
}
use service_router_operator.Api.{reason_validation_failed}
use service_router_operator.Api
use service_router_operator.Client.{Env, World, Identity, DnsConfig, call, finish, done}
use service_router_operator.DnsPolicy.{
  decide, validate_dns_policy, is_policy_active, determine_active_controllers, active_status,
  inactive_status, update_status_active, update_status_inactive,
}
use service_router_operator.DnsPolicy.Selection.{
  Fits, is_policy_active_iff, is_selected, determine_active_controllers-contains,
}

module _ {S : Type 0} (env : Env S) (p : Api.DnsPolicy) (identity : Identity) (config : DnsConfig)
    (w : World S) where
  -- The decision writes the policy with the status given, and does nothing else.
  abbrev pub Writes : Api.DnsPolicyStatus → Type 0
  Writes status =
      decide env p identity config w
      ≡ finish (call (env.client.dns_policies.update_status (record p { status = status }))) done w

  -- For a valid policy, the decision writes one status: it is active exactly if the policy fits the
  -- cluster, and its active controllers are those that the policy's mode selects if it is active, and
  -- none otherwise.
  pub decide-Writes :
      validate_dns_policy p config ≡ none
      → (status : Api.DnsPolicyStatus) × Writes status
        × ((status.active ≡ true) ↔ (
            Fits p.spec.source_region identity.region
            × Fits p.spec.source_cluster identity.cluster))
        × ((name : String)
            → contains name status.active_controllers ≡ (
                status.active
                && any
                    (λ c. c.name == name && is_selected p.spec.mode identity c)
                    config.external_dns_controllers))
  unfolding decide update_status_active update_status_inactive active_status inactive_status
  decide-Writes valid =
      let fits = (is_policy_active_iff p identity).0 in
      elim (Bool-cases (is_policy_active p identity).0) [
        | inl on ↦ (
          (active_status env p (determine_active_controllers p identity config)).status,
          rw (decide, valid, on) refl,
          (λ _. fits.0 on, λ _. refl),
          λ name. determine_active_controllers-contains name p identity config,
        )
        | inr off ↦ (
          (inactive_status env p (is_policy_active p identity).1).status,
          rw (decide, valid, off) refl,
          (λ e. cc, λ f. cc (sym off ∙ fits.1 f)),
          λ name. refl,
        )
      ]
