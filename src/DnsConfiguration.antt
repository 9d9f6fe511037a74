-- ===== src/DnsConfiguration.antt =====
-- internal/controller/cluster/dnsconfiguration_controller.go
pub mod Valid
pub mod Cached
use service_router_operator.Base.{
  ℕ, String, List, [], ◌∷◌, Option, none, some, ◌==◌, if◌then◌else◌, length, ltb, concat, show_nat,
  string_eq, ◌+◌,
}
use service_router_operator.Api.{
  NamespacedName, Condition, condition_true, condition_false, ExternalDnsController,
}
use service_router_operator.Api
use service_router_operator.Client.{
  Env, M, ReconcileResult, ok, err, pure, fail, attempt, call, finish, done, is_not_found, ◌>>=◌,
  ◌>>◌, everything,
}
use service_router_operator.Caches

-- The loop over the controllers, from index `i`.
unfoldable pub validate_controllers : ℕ → List ExternalDnsController → Option String
validate_controllers i [] = none
validate_controllers i (c ∷ cs) =
    let rest = validate_controllers (i + 1) cs in
    if c.name == ""
    then some (concat ("externalDNSControllers[" ∷ show_nat i ∷ "].name cannot be empty" ∷ []))
    else if c.region == ""
    then some (concat ("externalDNSControllers[" ∷ show_nat i ∷ "].region cannot be empty" ∷ []))
    else rest

unfoldable pub validate_spec : Api.DnsConfiguration → Option String
unfolding validate_controllers
validate_spec cr = elim cr.spec.external_dns_controllers [
  | [] ↦ some "externalDNSControllers cannot be empty"
  | c ∷ cs ↦ validate_controllers 0 (c ∷ cs)
]

module _ {S : Type 0} (env : Env S) where
  abbrev set_condition : Api.DnsConfiguration → Condition → Api.DnsConfiguration
  set_condition cr c = record cr {
    status = record (cr.status) { conditions = env.set_status_condition cr.status.conditions c };
  }

  unfoldable pub validate_singleton : M S (Option String)
  validate_singleton = do
    listed ← attempt (call (env.client.dns_configurations.list everything))
    elim listed [
      | err e ↦ pure (some (concat ("failed to list DNSConfigurations: " ∷ e.message ∷ [])))
      | ok items ↦ pure (
          if ltb 1 (length items)
          then some (
              concat (
                "only one DNSConfiguration resource is allowed per cluster, found "
                ∷ show_nat (length items)
                ∷ []))
          else none)
    ]

  unfoldable pub ready_status : Api.DnsConfiguration → Api.DnsConfiguration
  ready_status cr = set_condition cr (record {
    type = "Ready";
    status = condition_true;
    observed_generation = cr.meta.generation;
    reason = "ReconciliationSucceeded";
    message = "DNSConfiguration is valid and cached";
  })

  unfoldable pub update_status_ready : Api.DnsConfiguration → M S ReconcileResult
  unfolding ready_status
  update_status_ready cr =
      finish (call (env.client.dns_configurations.update_status (ready_status cr))) done

  unfoldable pub failed_status : Api.DnsConfiguration → String → String → Api.DnsConfiguration
  failed_status cr reason message = set_condition cr (record {
    type = "Ready";
    status = condition_false;
    observed_generation = cr.meta.generation;
    reason = reason;
    message = message;
  })

  unfoldable pub update_status_failed : Api.DnsConfiguration → String → String → M S ReconcileResult
  unfolding failed_status
  update_status_failed cr reason message =
      finish (call (env.client.dns_configurations.update_status (failed_status cr reason message)))
        done

  unfoldable pub reconcile : NamespacedName → M S ReconcileResult
  unfolding validate_singleton validate_spec update_status_failed update_status_ready
  reconcile req = do
    found ← attempt (call (env.client.dns_configurations.get req))
    elim found [
      | err e ↦ if is_not_found e then (do Caches.DnsConfiguration.clear; pure done) else fail e
      | ok cr ↦ do
        several ← validate_singleton
        elim several [
          | some message ↦ update_status_failed cr "SingletonViolation" message
          | none ↦ elim (validate_spec cr) [
            | some message ↦ update_status_failed cr "InvalidSpec" message
            | none ↦ do
              Caches.DnsConfiguration.set (some (Caches.DnsConfiguration.of_cr cr))
              update_status_ready cr
          ]
        ]
    ]
