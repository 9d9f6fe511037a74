-- ===== src/DnsPolicy.antt =====
-- internal/controller/routing/dnspolicy_controller.go
pub mod Selection
pub mod Decision
use service_router_operator.Base.{
  String, List, [], ◌∷◌, ◌++◌, Option, none, some, Bool, true, false, not, ◌&&◌, ◌==◌,
  if◌then◌else◌, contains, add, concat, string_eq,
}
use service_router_operator.Api.{
  NamespacedName, key_of, Condition, condition_true, condition_false, ExternalDnsController,
  phase_active, condition_type_ready, reason_reconciliation_succeeded, reason_validation_failed,
  reason_policy_inactive, reason_cluster_identity_not_available,
  reason_dns_configuration_not_available,
}
use service_router_operator.Api
use service_router_operator.Client.{
  Env, Identity, DnsConfig, M, ReconcileResult, ok, err, pure, fail, attempt, call, finish, done,
  is_not_found, ◌>>=◌, everything,
}
use service_router_operator.Caches

abbrev pub not_empty_and_not : String → String → Bool
not_empty_and_not source own = not (source == "") && not (source == own)

unfoldable pub validate_dns_policy : Api.DnsPolicy → DnsConfig → Option String
validate_dns_policy p config =
    if not (p.spec.mode == "Active") && not (p.spec.mode == "RegionBound")
    then some (concat ("invalid mode: " ∷ p.spec.mode ∷ ", must be Active or RegionBound" ∷ []))
    else elim config.external_dns_controllers [
      | [] ↦ some "at least one ExternalDNS controller must be defined in DNSConfiguration"
      | _ ↦ none
    ]

unfoldable pub is_policy_active : Api.DnsPolicy → Identity → Bool × String
is_policy_active p identity =
    if not_empty_and_not p.spec.source_region identity.region
    then (
      false,
      concat (
          "SourceRegion '" ∷ p.spec.source_region ∷ "' does not match cluster region '"
          ∷ identity.region ∷ "'" ∷ []),
    )
    else if not_empty_and_not p.spec.source_cluster identity.cluster
    then (
      false,
      concat (
          "SourceCluster '" ∷ p.spec.source_cluster ∷ "' does not match cluster name '"
          ∷ identity.cluster ∷ "'" ∷ []),
    )
    else (true, "")

-- The loop that appends the names of the controllers of one region to `active`.
unfoldable pub append_region : String → List ExternalDnsController → List String → List String
append_region region [] active = active
append_region region (c ∷ cs) active =
    append_region region cs (if c.region == region then active ++ c.name ∷ [] else active)

unfoldable pub existing_regions : List ExternalDnsController → List String → List String
existing_regions [] regions = regions
existing_regions (c ∷ cs) regions = existing_regions cs (add c.region regions)

-- The loop over the adopted regions.
unfoldable pub append_adopted :
    List String → List ExternalDnsController → List String → List String → List String
unfolding append_region
append_adopted existing controllers [] active = active
append_adopted existing controllers (region ∷ regions) active =
    append_adopted existing controllers regions
      (if contains region existing then append_region region controllers active else active)

unfoldable pub active_mode_controllers : Identity → DnsConfig → List String
unfolding append_adopted existing_regions
active_mode_controllers identity config =
    let own = append_region identity.region config.external_dns_controllers [] in
    elim identity.adopts_regions [
      | [] ↦ own
      | r ∷ rs ↦
          append_adopted (existing_regions config.external_dns_controllers [])
            config.external_dns_controllers (r ∷ rs) own
    ]

unfoldable pub append_names : List ExternalDnsController → List String → List String
append_names [] active = active
append_names (c ∷ cs) active = append_names cs (active ++ c.name ∷ [])

unfoldable pub region_bound_mode_controllers : DnsConfig → List String
unfolding append_names
region_bound_mode_controllers config = append_names config.external_dns_controllers []

unfoldable pub determine_active_controllers : Api.DnsPolicy → Identity → DnsConfig → List String
unfolding active_mode_controllers region_bound_mode_controllers
determine_active_controllers p identity config =
    if p.spec.mode == "Active"
    then active_mode_controllers identity config
    else region_bound_mode_controllers config

abbrev requests_of : List Api.DnsPolicy → List NamespacedName
requests_of [] = []
requests_of (p ∷ ps) = key_of p.meta ∷ requests_of ps

module _ {S : Type 0} (env : Env S) where
  unfoldable pub map_global_config_to_dns_policies : M S (List NamespacedName)
  map_global_config_to_dns_policies = do
    listed ← attempt (call (env.client.dns_policies.list everything))
    elim listed [ err _ ↦ pure [] | ok items ↦ pure (requests_of items) ]

  -- The Ready condition with a status, a reason and a message.
  abbrev ready : Api.DnsPolicy → Api.ConditionStatus → String → String → List Condition
  ready p status reason message = env.set_status_condition p.status.conditions (record {
    type = condition_type_ready;
    status = status;
    observed_generation = p.meta.generation;
    reason = reason;
    message = message;
  })

  unfoldable pub active_status : Api.DnsPolicy → List String → Api.DnsPolicy
  active_status p controllers = record p {
    status = record {
      phase = phase_active;
      active = true;
      active_controllers = controllers;
      conditions = ready p condition_true reason_reconciliation_succeeded "DNSPolicy is active";
    };
  }

  unfoldable pub update_status_active : Api.DnsPolicy → List String → M S ReconcileResult
  unfolding active_status
  update_status_active p controllers =
      finish (call (env.client.dns_policies.update_status (active_status p controllers))) done

  unfoldable pub inactive_status : Api.DnsPolicy → String → Api.DnsPolicy
  inactive_status p reason = record p {
    status = record (p.status) {
      active = false;
      active_controllers = [];
      conditions =
          ready p condition_false reason_policy_inactive
            (concat ("Policy not active for this cluster: " ∷ reason ∷ []));
    };
  }

  unfoldable pub update_status_inactive : Api.DnsPolicy → String → M S ReconcileResult
  unfolding inactive_status
  update_status_inactive p reason =
      finish (call (env.client.dns_policies.update_status (inactive_status p reason))) done

  unfoldable pub pending_status : Api.DnsPolicy → String → String → Api.DnsPolicy
  pending_status p reason message = record p {
    status = record (p.status) { conditions = ready p condition_false reason message };
  }

  unfoldable pub update_status_pending : Api.DnsPolicy → String → String → M S ReconcileResult
  unfolding pending_status
  update_status_pending p reason message =
      finish (call (env.client.dns_policies.update_status (pending_status p reason message))) done

  unfoldable pub failed_status : Api.DnsPolicy → String → String → Api.DnsPolicy
  failed_status p reason message = record p {
    status = record (p.status) { conditions = ready p condition_false reason message };
  }

  unfoldable pub update_status_failed : Api.DnsPolicy → String → String → M S ReconcileResult
  unfolding failed_status
  update_status_failed p reason message =
      finish (call (env.client.dns_policies.update_status (failed_status p reason message))) done

  -- The part of `Reconcile` that has both the identity and the configuration.
  unfoldable pub decide : Api.DnsPolicy → Identity → DnsConfig → M S ReconcileResult
  unfolding validate_dns_policy is_policy_active determine_active_controllers update_status_active
      update_status_inactive update_status_failed
  decide p identity config = elim (validate_dns_policy p config) [
    | some message ↦ update_status_failed p reason_validation_failed message
    | none ↦
        let (policy_active, inactive_reason) = is_policy_active p identity in
        if policy_active
        then update_status_active p (determine_active_controllers p identity config)
        else update_status_inactive p inactive_reason
  ]

  abbrev identity_missing : Api.DnsPolicy → M S ReconcileResult
  identity_missing p =
      update_status_pending p reason_cluster_identity_not_available
        "Waiting for ClusterIdentity to be configured"

  abbrev config_missing : Api.DnsPolicy → M S ReconcileResult
  config_missing p =
      update_status_pending p reason_dns_configuration_not_available
        "Waiting for DNSConfiguration to be configured"

  -- From the fetch of the configuration on.
  unfoldable pub with_identity : Api.DnsPolicy → Identity → M S ReconcileResult
  unfolding decide update_status_pending
  with_identity p i = do
    config ← attempt (Caches.DnsConfiguration.fetch env)
    elim config [
      | err _ ↦ config_missing p
      | ok none ↦ config_missing p
      | ok (some c) ↦ decide p i c
    ]

  unfoldable pub reconcile : NamespacedName → M S ReconcileResult
  unfolding with_identity update_status_pending
  reconcile req = do
    found ← attempt (call (env.client.dns_policies.get req))
    elim found [
      | err e ↦ if is_not_found e then pure done else fail e
      | ok p ↦ do
        identity ← attempt (Caches.Identity.fetch env)
        elim identity [
          | err _ ↦ identity_missing p
          | ok none ↦ identity_missing p
          | ok (some i) ↦ with_identity p i
        ]
    ]
