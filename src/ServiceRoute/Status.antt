-- ===== src/ServiceRoute/Status.antt =====
-- internal/controller/routing/serviceroute_controller.go: the status of a route, and its updates.
use service_router_operator.Base.{String, List, [], ◌∷◌, string_eq}
use service_router_operator.Api.{
  NamespacedName, key_of, Condition, ConditionStatus, condition_true, condition_false, DnsPolicy,
  Gateway, DnsEndpoint, phase_active, phase_failed, phase_pending, condition_type_ready,
  reason_reconciliation_succeeded, reason_validation_failed, reason_cluster_identity_not_available,
  reason_dns_configuration_not_available, reason_dns_policy_not_found, reason_dns_policy_inactive,
  reason_gateway_not_found, reason_dns_endpoint_generation_failed,
}
use service_router_operator.Api
use service_router_operator.Client.{Env, M, ReconcileResult, call, finish, done}

abbrev first_name : List DnsEndpoint → String → String
first_name [] old = old
first_name (e ∷ _) old = e.meta.name

module _ {S : Type 0} (env : Env S) where
  -- The Ready condition with a status, a reason and a message.
  abbrev ready : Api.ServiceRoute → ConditionStatus → String → String → List Condition
  ready route status reason message = env.set_status_condition route.status.conditions (record {
    type = condition_type_ready;
    status = status;
    observed_generation = route.meta.generation;
    reason = reason;
    message = message;
  })

  unfoldable pub active_status : Api.ServiceRoute → List DnsEndpoint → Api.ServiceRoute
  active_status route endpoints = record route {
    status = record {
      phase = phase_active;
      dns_endpoint = first_name endpoints route.status.dns_endpoint;
      conditions =
          ready route condition_true reason_reconciliation_succeeded "ServiceRoute is active";
    };
  }

  unfoldable pub update_status_active : Api.ServiceRoute → List DnsEndpoint → M S ReconcileResult
  unfolding active_status
  update_status_active route endpoints =
      finish (call (env.client.service_routes.update_status (active_status route endpoints))) done

  unfoldable pub pending_status : Api.ServiceRoute → String → String → Api.ServiceRoute
  pending_status route reason message = record route {
    status = record (route.status) {
      phase = phase_pending;
      conditions = ready route condition_false reason message;
    };
  }

  unfoldable pub update_status_pending : Api.ServiceRoute → String → String → M S ReconcileResult
  unfolding pending_status
  update_status_pending route reason message =
      finish (call (env.client.service_routes.update_status (pending_status route reason message)))
        done

  unfoldable pub failed_status : Api.ServiceRoute → String → String → Api.ServiceRoute
  failed_status route reason message = record route {
    status = record (route.status) {
      phase = phase_failed;
      conditions = ready route condition_false reason message;
    };
  }

  unfoldable pub update_status_failed : Api.ServiceRoute → String → String → M S ReconcileResult
  unfolding failed_status
  update_status_failed route reason message =
      finish (call (env.client.service_routes.update_status (failed_status route reason message)))
        done
