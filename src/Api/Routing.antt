-- ===== src/Api/Routing.antt =====
-- api/routing/v1alpha1: Gateway, ServiceRoute and DNSPolicy.
use service_router_operator.Base.{String, List, Bool}
use service_router_operator.Api.Meta.{ObjectMeta, Condition}

pub record GatewaySpec : Type 0 where
  pub controller : String
  pub credential_name : String
  pub target_postfix : String

pub record GatewayStatus : Type 0 where
  pub phase : String
  pub load_balancer_ip : String
  pub conditions : List Condition

pub record Gateway : Type 0 where
  pub meta : ObjectMeta
  pub spec : GatewaySpec
  pub status : GatewayStatus

pub record ServiceRouteSpec : Type 0 where
  pub service_name : String
  pub gateway_name : String
  pub gateway_namespace : String
  pub environment : String
  pub application : String

pub record ServiceRouteStatus : Type 0 where
  pub phase : String
  pub dns_endpoint : String
  pub conditions : List Condition

pub record ServiceRoute : Type 0 where
  pub meta : ObjectMeta
  pub spec : ServiceRouteSpec
  pub status : ServiceRouteStatus

pub record DnsPolicySpec : Type 0 where
  pub mode : String
  pub source_region : String
  pub source_cluster : String

pub record DnsPolicyStatus : Type 0 where
  pub phase : String
  pub active : Bool
  pub active_controllers : List String
  pub conditions : List Condition

pub record DnsPolicy : Type 0 where
  pub meta : ObjectMeta
  pub spec : DnsPolicySpec
  pub status : DnsPolicyStatus
