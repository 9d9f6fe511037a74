-- ===== src/Api/External.antt =====
-- The fields that the operator uses of other projects' objects: ExternalDNS's DNSEndpoint, Istio's
-- Gateway and the core group's Service. A nil slice and an empty one are one value here.
use service_router_operator.Base.{ℕ, String, List, Option}
use service_router_operator.Api.Meta.{ObjectMeta}

pub record Endpoint : Type 0 where
  pub dns_name : String
  pub record_type : String
  pub targets : List String
  pub record_ttl : ℕ

pub record DnsEndpointSpec : Type 0 where
  pub endpoints : List Endpoint

pub record DnsEndpoint : Type 0 where
  pub meta : ObjectMeta
  pub spec : DnsEndpointSpec

pub record Port : Type 0 where
  pub number : ℕ
  pub name : String
  pub protocol : String

pub data TlsMode : Type 0 where
  passthrough simple mutual_tls auto_passthrough istio_mutual : TlsMode

pub record ServerTlsSettings : Type 0 where
  pub mode : TlsMode
  pub credential_name : String

pub record Server : Type 0 where
  pub port : Port
  pub hosts : List String
  pub tls : Option ServerTlsSettings

pub record IstioGatewaySpec : Type 0 where
  pub selector : List (String × String)
  pub servers : List Server

pub record IstioGateway : Type 0 where
  pub meta : ObjectMeta
  pub spec : IstioGatewaySpec

pub data ServiceType : Type 0 where
  cluster_ip node_port load_balancer external_name : ServiceType

-- `ingress_ips` holds the IP of each entry of `Status.LoadBalancer.Ingress`.
pub record Service : Type 0 where
  pub meta : ObjectMeta
  pub type : ServiceType
  pub ingress_ips : List String
