-- ===== src/ClusterIdentity.antt =====
-- internal/controller/cluster/clusteridentity_controller.go. A validation error is its text; a handler
-- that changes the object which it read returns the changed object.
pub mod Valid
pub mod Cached
use service_router_operator.Base.{
  ℕ, String, List, [], ◌∷◌, Option, none, some, ◌==◌, if◌then◌else◌, length, ltb, contains, add,
  concat, show_strings, show_nat, string_eq,
}
use service_router_operator.Api.{
  NamespacedName, key_of, Condition, condition_true, condition_false, ConditionStatus,
  ExternalDnsController, phase_active, phase_failed, condition_type_ready,
  condition_type_adopted_regions_valid, reason_reconciliation_succeeded, reason_singleton_violation,
  reason_invalid_spec, reason_no_adopted_regions, reason_adopted_region_not_found,
  reason_all_adopted_regions_valid,
}
use service_router_operator.Api
use service_router_operator.Client.{
  Env, DnsConfig, M, ReconcileResult, ok, err, pure, fail, attempt, call, finish, done,
  is_not_found, ◌>>=◌, ◌>>◌, everything,
}
use service_router_operator.Caches

-- The names of the list's objects; the requests carry no namespace.
abbrev requests_of : List Api.ClusterIdentity → List NamespacedName
requests_of [] = []
requests_of (identity ∷ items) =
    record { name = identity.meta.name; namespace = "" } ∷ requests_of items

unfoldable pub existing_regions : List ExternalDnsController → List String → List String
existing_regions [] regions = regions
existing_regions (c ∷ cs) regions = existing_regions cs (add c.region regions)

unfoldable pub invalid_regions : List String → List String → List String
invalid_regions existing [] = []
invalid_regions existing (region ∷ regions) =
    if contains region existing
    then invalid_regions existing regions
    else region ∷ invalid_regions existing regions

unfoldable pub validate_spec : Api.ClusterIdentity → Option String
validate_spec cr =
    if cr.spec.region == ""
    then some "region cannot be empty"
    else if cr.spec.cluster == ""
    then some "cluster cannot be empty"
    else if cr.spec.domain == ""
    then some "domain cannot be empty"
    else if cr.spec.environment_letter == ""
    then some "environmentLetter cannot be empty"
    else none

-- The condition that the adopted regions get, given those without a controller.
unfoldable pub adopted_condition : ℕ → List String → Condition
adopted_condition generation [] = record {
  type = condition_type_adopted_regions_valid;
  status = condition_true;
  observed_generation = generation;
  reason = reason_all_adopted_regions_valid;
  message = "All adopted regions have matching controllers";
}
adopted_condition generation (r ∷ rs) = record {
  type = condition_type_adopted_regions_valid;
  status = condition_false;
  observed_generation = generation;
  reason = reason_adopted_region_not_found;
  message = concat (
      "Adopted regions "
      ∷ show_strings (r ∷ rs)
      ∷ " have no matching controller in DNSConfiguration"
      ∷ []);
}

abbrev controllers_of : Option DnsConfig → List ExternalDnsController
controllers_of none = []
controllers_of (some config) = config.external_dns_controllers

module _ {S : Type 0} (env : Env S) where
  abbrev set_condition : Api.ClusterIdentity → Condition → Api.ClusterIdentity
  set_condition cr c = record cr {
    status = record (cr.status) { conditions = env.set_status_condition cr.status.conditions c };
  }

  unfoldable pub validate_adopted_regions : Api.ClusterIdentity → M S Api.ClusterIdentity
  unfolding existing_regions invalid_regions adopted_condition
  validate_adopted_regions cr = elim cr.spec.adopts_regions [
    | [] ↦ pure (
        set_condition cr (record {
          type = condition_type_adopted_regions_valid;
          status = condition_true;
          observed_generation = cr.meta.generation;
          reason = reason_no_adopted_regions;
          message = "No adopted regions configured";
        }))
    | r ∷ rs ↦ do
      config ← Caches.DnsConfiguration.fetch env
      let existing = existing_regions (controllers_of config) []
      let invalid = invalid_regions existing (r ∷ rs)
      pure (set_condition cr (adopted_condition cr.meta.generation invalid))
  ]

  unfoldable pub validate_singleton : M S (Option String)
  validate_singleton = do
    listed ← attempt (call (env.client.cluster_identities.list everything))
    elim listed [
      | err e ↦ pure (some (concat ("failed to list ClusterIdentities: " ∷ e.message ∷ [])))
      | ok items ↦ pure (
          if ltb 1 (length items)
          then some (
              concat (
                "only one ClusterIdentity resource is allowed per cluster, found "
                ∷ show_nat (length items)
                ∷ []))
          else none)
    ]

  unfoldable pub active_status : Api.ClusterIdentity → Api.ClusterIdentity
  active_status cr =
      set_condition (record cr { status = record (cr.status) { phase = phase_active } })
        (record {
          type = condition_type_ready;
          status = condition_true;
          observed_generation = cr.meta.generation;
          reason = reason_reconciliation_succeeded;
          message = "ClusterIdentity is active and cluster identity is cached";
        })

  unfoldable pub update_status_active : Api.ClusterIdentity → M S ReconcileResult
  unfolding active_status
  update_status_active cr =
      finish (call (env.client.cluster_identities.update_status (active_status cr))) done

  unfoldable pub failed_status : Api.ClusterIdentity → String → String → Api.ClusterIdentity
  failed_status cr reason message =
      set_condition (record cr { status = record (cr.status) { phase = phase_failed } })
        (record {
          type = condition_type_ready;
          status = condition_false;
          observed_generation = cr.meta.generation;
          reason = reason;
          message = message;
        })

  unfoldable pub update_status_failed : Api.ClusterIdentity → String → String → M S ReconcileResult
  unfolding failed_status
  update_status_failed cr reason message =
      finish (call (env.client.cluster_identities.update_status (failed_status cr reason message)))
        done

  -- The part of `Reconcile` that follows the validation. An error of the adopted regions' check is
  -- only logged, and leaves the object as it was.
  unfoldable pub accept : Api.ClusterIdentity → M S ReconcileResult
  unfolding validate_adopted_regions update_status_active
  accept cr = do
    checked ← attempt (validate_adopted_regions cr)
    let cr' : Api.ClusterIdentity = elim checked [ ok changed ↦ changed | err _ ↦ cr ]
    Caches.Identity.set (some (Caches.Identity.of_cr cr'))
    update_status_active cr'

  unfoldable pub reconcile : NamespacedName → M S ReconcileResult
  unfolding accept validate_singleton validate_spec update_status_failed
  reconcile req = do
    found ← attempt (call (env.client.cluster_identities.get req))
    elim found [
      | err e ↦ if is_not_found e then (do Caches.Identity.clear; pure done) else fail e
      | ok cr ↦ do
        several ← validate_singleton
        elim several [
          | some message ↦ update_status_failed cr reason_singleton_violation message
          | none ↦ elim (validate_spec cr) [
            | some message ↦ update_status_failed cr reason_invalid_spec message
            | none ↦ accept cr
          ]
        ]
    ]

  unfoldable pub map_dns_config_to_cluster_identities : M S (List NamespacedName)
  map_dns_config_to_cluster_identities = do
    listed ← attempt (call (env.client.cluster_identities.list everything))
    elim listed [ err _ ↦ pure [] | ok items ↦ pure (requests_of items) ]
