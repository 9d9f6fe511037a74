-- ===== src/Api/Cluster.antt =====
-- api/cluster/v1alpha1: ClusterIdentity and DNSConfiguration.
use service_router_operator.Base.{String, List}
use service_router_operator.Api.Meta.{ObjectMeta, Condition}

pub record ClusterIdentitySpec : Type 0 where
  pub region : String
  pub cluster : String
  pub domain : String
  pub environment_letter : String
  pub adopts_regions : List String

pub record ClusterIdentityStatus : Type 0 where
  pub phase : String
  pub conditions : List Condition

pub record ClusterIdentity : Type 0 where
  pub meta : ObjectMeta
  pub spec : ClusterIdentitySpec
  pub status : ClusterIdentityStatus

pub record ExternalDnsController : Type 0 where
  pub name : String
  pub region : String

pub record DnsConfigurationSpec : Type 0 where
  pub external_dns_controllers : List ExternalDnsController

pub record DnsConfigurationStatus : Type 0 where
  pub conditions : List Condition

pub record DnsConfiguration : Type 0 where
  pub meta : ObjectMeta
  pub spec : DnsConfigurationSpec
  pub status : DnsConfigurationStatus
