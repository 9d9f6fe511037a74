-- ===== src/Setup/Controllers.antt =====
-- The controllers of the operator as they are registered: what each watches, and its reconciliation
-- (internal/controller).
use service_router_operator.Base.{[], ◌∷◌, none, some}
use service_router_operator.Client.{Env, pure}
use service_router_operator.ClusterIdentity
use service_router_operator.DnsConfiguration
use service_router_operator.DnsPolicy
use service_router_operator.Gateway
use service_router_operator.IngressDns
use service_router_operator.ServiceRoute
use service_router_operator.Setup.ControllerRuntime.{
  Runtime, Controller, cluster_identity, dns_configuration, dns_policy, gateway, service_route,
  service, istio_gateway, dns_endpoint,
}

module _ {S : Type 0} (env : Env S) where
  abbrev pub cluster_identity_controller : Controller S
  cluster_identity_controller = record {
    sources = record {
      for = some cluster_identity;
      owned = [];
      watched =
          record {
            kind = dns_configuration;
            requests = λ _. ClusterIdentity.map_dns_config_to_cluster_identities env;
          }
          ∷ [];
      filters = [];
    };
    reconcile = ClusterIdentity.reconcile env;
  }

  abbrev pub dns_configuration_controller : Controller S
  dns_configuration_controller = record {
    sources = record { for = some dns_configuration; owned = []; watched = []; filters = [] };
    reconcile = DnsConfiguration.reconcile env;
  }

  abbrev pub dns_policy_controller : Controller S
  dns_policy_controller = record {
    sources = record {
      for = some dns_policy;
      owned = [];
      watched =
          record {
            kind = cluster_identity;
            requests = λ _. DnsPolicy.map_global_config_to_dns_policies env;
          }
          ∷ record {
            kind = dns_configuration;
            requests = λ _. DnsPolicy.map_global_config_to_dns_policies env;
          }
          ∷ [];
      filters = [];
    };
    reconcile = DnsPolicy.reconcile env;
  }

  abbrev pub ingress_dns_controller : Controller S
  ingress_dns_controller = record {
    sources = record {
      for = none;
      owned = [];
      watched =
          record { kind = gateway; requests = λ _. pure IngressDns.map_global_events_to_request }
          ∷ record {
            kind = service;
            requests = λ s. pure (IngressDns.map_service_to_request s.meta);
          }
          ∷ record {
            kind = cluster_identity;
            requests = λ _. pure IngressDns.map_global_events_to_request;
          }
          ∷ record {
            kind = dns_configuration;
            requests = λ _. pure IngressDns.map_global_events_to_request;
          }
          ∷ [];
      filters = [];
    };
    reconcile = λ _. IngressDns.reconcile env;
  }

  abbrev pub service_route_controller : Controller S
  service_route_controller = record {
    sources = record {
      for = some service_route;
      owned = dns_endpoint ∷ [];
      watched =
          record { kind = dns_policy; requests = ServiceRoute.map_dns_policy_to_service_routes env }
          ∷ record { kind = gateway; requests = ServiceRoute.map_gateway_to_service_routes env }
          ∷ record {
            kind = cluster_identity;
            requests = λ _. ServiceRoute.map_cluster_identity_to_service_routes env;
          }
          ∷ [];
      filters = [];
    };
    reconcile = ServiceRoute.reconcile env;
  }

module _ {S P B : Type 0} (rt : Runtime S P B) (env : Env S) where
  abbrev pub gateway_controller : Controller S
  gateway_controller = record {
    sources = record {
      for = some gateway;
      owned = istio_gateway ∷ [];
      watched =
          record {
            kind = service_route;
            requests = λ r. pure (Gateway.map_service_route_to_gateway env r);
          }
          ∷ record { kind = service; requests = Gateway.map_service_to_gateways env }
          ∷ record {
            kind = dns_configuration;
            requests = λ _. Gateway.map_dns_config_to_gateways env;
          }
          ∷ [];
      filters = rt.generation_changed ∷ [];
    };
    reconcile = Gateway.reconcile env;
  }
