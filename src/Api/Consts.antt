-- ===== src/Api/Consts.antt =====
-- pkg/consts/constants.go
use service_router_operator.Base.{String}

abbrev pub phase_active : String
phase_active = "Active"

abbrev pub phase_pending : String
phase_pending = "Pending"

abbrev pub phase_failed : String
phase_failed = "Failed"

abbrev pub phase_inactive : String
phase_inactive = "Inactive"

abbrev pub condition_type_ready : String
condition_type_ready = "Ready"

abbrev pub condition_type_dns_ready : String
condition_type_dns_ready = "DNSReady"

abbrev pub condition_type_adopted_regions_valid : String
condition_type_adopted_regions_valid = "AdoptedRegionsValid"

abbrev pub reason_reconciliation_succeeded : String
reason_reconciliation_succeeded = "ReconciliationSucceeded"

abbrev pub reason_validation_failed : String
reason_validation_failed = "ValidationFailed"

abbrev pub reason_singleton_violation : String
reason_singleton_violation = "SingletonViolation"

abbrev pub reason_invalid_spec : String
reason_invalid_spec = "InvalidSpec"

abbrev pub reason_no_adopted_regions : String
reason_no_adopted_regions = "NoAdoptedRegions"

abbrev pub reason_adopted_region_not_found : String
reason_adopted_region_not_found = "AdoptedRegionNotFound"

abbrev pub reason_all_adopted_regions_valid : String
reason_all_adopted_regions_valid = "AllAdoptedRegionsValid"

abbrev pub reason_policy_inactive : String
reason_policy_inactive = "PolicyInactive"

abbrev pub reason_cluster_identity_not_available : String
reason_cluster_identity_not_available = "ClusterIdentityNotAvailable"

abbrev pub reason_dns_configuration_not_available : String
reason_dns_configuration_not_available = "DNSConfigurationNotAvailable"

abbrev pub reason_dns_policy_not_found : String
reason_dns_policy_not_found = "DNSPolicyNotFound"

abbrev pub reason_dns_policy_inactive : String
reason_dns_policy_inactive = "DNSPolicyInactive"

abbrev pub reason_gateway_not_found : String
reason_gateway_not_found = "GatewayNotFound"

abbrev pub reason_no_service_routes : String
reason_no_service_routes = "NoServiceRoutes"

abbrev pub reason_dns_endpoint_generation_failed : String
reason_dns_endpoint_generation_failed = "DNSEndpointGenerationFailed"

abbrev pub reason_istio_gateway_generation_failed : String
reason_istio_gateway_generation_failed = "IstioGatewayGenerationFailed"

abbrev pub reason_dns_endpoints_created : String
reason_dns_endpoints_created = "DNSEndpointsCreated"

abbrev pub reason_load_balancer_ip_pending : String
reason_load_balancer_ip_pending = "LoadBalancerIPPending"

abbrev pub reason_dns_not_ready : String
reason_dns_not_ready = "DNSNotReady"
