-- ===== src/Gateway/Status.antt =====
-- internal/controller/routing/gateway_controller.go: the conditions of the status, and its updates.
use service_router_operator.Base.{ℕ, ◌*◌, String, Bool, ◌==◌, if◌then◌else◌, string_eq, nat_eq}
use service_router_operator.Api.{
  Condition, ConditionStatus, condition_true, condition_false, phase_active, phase_failed,
  phase_pending, condition_type_ready, condition_type_dns_ready, reason_reconciliation_succeeded,
  reason_dns_endpoints_created, reason_load_balancer_ip_pending, reason_dns_not_ready,
}
use service_router_operator.Api
use service_router_operator.Client.{Env, M, ReconcileResult, call, finish, done}

abbrev nanoseconds : ℕ → ℕ
nanoseconds seconds = seconds * 1_000_000_000

module _ {S : Type 0} (env : Env S) where
  abbrev set_condition : Api.Gateway → Condition → Api.Gateway
  set_condition gateway c = record gateway {
    status = record (gateway.status) {
      conditions = env.set_status_condition gateway.status.conditions c;
    };
  }

  abbrev ready_condition : Api.Gateway → ConditionStatus → String → String → Condition
  ready_condition gateway status reason message = record {
    type = condition_type_ready;
    status = status;
    observed_generation = gateway.meta.generation;
    reason = reason;
    message = message;
  }

  abbrev dns_condition : Api.Gateway → String → Bool → String → Condition
  dns_condition gateway lb_ip dns_ready dns_msg = record {
    type = condition_type_dns_ready;
    status = if dns_ready then condition_true else condition_false;
    observed_generation = gateway.meta.generation;
    reason =
        if dns_ready
        then reason_dns_endpoints_created
        else if lb_ip == ""
        then reason_load_balancer_ip_pending
        else reason_dns_not_ready;
    message = dns_msg;
  }

  -- The result after an update: another run in thirty seconds, unless DNS is ready.
  abbrev pub after_update : Bool → ReconcileResult
  after_update dns_ready =
      if dns_ready then done else record done { requeue_after = nanoseconds 30 }

  unfoldable pub active_status : Api.Gateway → String → Bool → String → Api.Gateway
  active_status gateway lb_ip dns_ready dns_msg =
      let g : Api.Gateway = record gateway {
        status = record (gateway.status) { phase = phase_active; load_balancer_ip = lb_ip };
      } in
      set_condition
        (set_condition g (
          ready_condition gateway condition_true reason_reconciliation_succeeded
            "Gateway is active"))
        (dns_condition gateway lb_ip dns_ready dns_msg)

  unfoldable pub update_status_active : Api.Gateway → String → Bool → String → M S ReconcileResult
  unfolding active_status
  update_status_active gateway lb_ip dns_ready dns_msg =
      finish
        (call (env.client.gateways.update_status (active_status gateway lb_ip dns_ready dns_msg)))
        (after_update dns_ready)

  unfoldable pub pending_status :
      Api.Gateway → String → String → String → Bool → String → Api.Gateway
  pending_status gateway reason message lb_ip dns_ready dns_msg =
      let g : Api.Gateway = record gateway {
        status = record (gateway.status) { phase = phase_pending; load_balancer_ip = lb_ip };
      } in
      set_condition (set_condition g (ready_condition gateway condition_false reason message))
        (dns_condition gateway lb_ip dns_ready dns_msg)

  unfoldable pub update_status_pending :
      Api.Gateway → String → String → String → Bool → String → M S ReconcileResult
  unfolding pending_status
  update_status_pending gateway reason message lb_ip dns_ready dns_msg =
      finish
        (call (
          env.client.gateways.update_status
            (pending_status gateway reason message lb_ip dns_ready dns_msg)))
        (after_update dns_ready)

  unfoldable pub failed_status : Api.Gateway → String → String → Api.Gateway
  failed_status gateway reason message =
      set_condition (record gateway { status = record (gateway.status) { phase = phase_failed } })
        (ready_condition gateway condition_false reason message)

  unfoldable pub update_status_failed : Api.Gateway → String → String → M S ReconcileResult
  unfolding failed_status
  update_status_failed gateway reason message =
      finish (call (env.client.gateways.update_status (failed_status gateway reason message))) done
