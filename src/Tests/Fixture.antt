-- ===== src/Tests/Fixture.antt =====
-- A cluster with two regions, a policy, a gateway and two routes, on the server in memory.
use mathlib.Core.List.Perm
use service_router_operator.Base.{String, List, [], ◌∷◌, true, none, ◌==◌, if◌then◌else◌, string_eq}
use service_router_operator.Api.{
  ObjectMeta, Condition, OwnerReference, GroupVersionKind, ClusterIdentity, DnsConfiguration,
  ExternalDnsController, DnsPolicy, Gateway, ServiceRoute, Service, ServiceType, DnsEndpoint,
  IstioGateway,
}
use service_router_operator.Client.{
  endpoint_kind, istio_gateway_kind, Client, MapOrder, IsMapOrder, Env, World, Identity, DnsConfig,
}
use service_router_operator.Tests.Same.{stored_endpoint_Eq, stored_istio_gateway_Eq}
use service_router_operator.Tests.Memory.{fixed, mem_store}

abbrev pub meta_of : String → String → ObjectMeta
meta_of name namespace = record {
  name = name;
  namespace = namespace;
  uid = "u";
  generation = 1;
  deletion_timestamp = none;
  labels = [];
  annotations = [];
  owner_references = [];
}

abbrev pub west_controller : ExternalDnsController
west_controller = record { name = "dns-weu"; region = "weu" }

abbrev pub north_controller : ExternalDnsController
north_controller = record { name = "dns-neu"; region = "neu" }

abbrev pub config : DnsConfig
config = record { external_dns_controllers = west_controller ∷ north_controller ∷ [] }

abbrev pub config_cr : DnsConfiguration
config_cr = record {
  meta = meta_of "dns" "";
  spec = record { external_dns_controllers = west_controller ∷ north_controller ∷ [] };
  status = record { conditions = [] };
}

abbrev pub identity : Identity
identity = record {
  region = "weu";
  cluster = "aks01";
  domain = "example.com";
  environment_letter = "d";
  adopts_regions = "neu" ∷ [];
}

abbrev pub identity_cr : ClusterIdentity
identity_cr = record {
  meta = meta_of "identity" "";
  spec = record {
    region = "weu";
    cluster = "aks01";
    domain = "example.com";
    environment_letter = "d";
    adopts_regions = "neu" ∷ [];
  };
  status = record { phase = ""; conditions = [] };
}

abbrev pub policy : DnsPolicy
policy = record {
  meta = meta_of "policy" "team";
  spec = record { mode = "Active"; source_region = "weu"; source_cluster = "" };
  status = record {
    phase = "Active";
    active = true;
    active_controllers = "dns-weu" ∷ "dns-neu" ∷ [];
    conditions = [];
  };
}

abbrev pub gateway : Gateway
gateway = record {
  meta = meta_of "gw" "istio-system";
  spec = record { controller = "istio-in"; credential_name = "cert"; target_postfix = "external" };
  status = record { phase = ""; load_balancer_ip = ""; conditions = [] };
}

abbrev pub route : ServiceRoute
route = record {
  meta = meta_of "orders" "team";
  spec = record {
    service_name = "orders";
    gateway_name = "gw";
    gateway_namespace = "";
    environment = "dev";
    application = "shop";
  };
  status = record { phase = ""; dns_endpoint = ""; conditions = [] };
}

abbrev pub other_route : ServiceRoute
other_route = record {
  meta = meta_of "users" "team";
  spec = record {
    service_name = "users";
    gateway_name = "other";
    gateway_namespace = "";
    environment = "dev";
    application = "shop";
  };
  status = record { phase = ""; dns_endpoint = ""; conditions = [] };
}

abbrev pub service : Service
service = record {
  meta = record (meta_of "istio-in" "istio-system") { labels = ("istio", "istio-in") ∷ [] };
  type = ServiceType.load_balancer;
  ingress_ips = "10.0.0.4" ∷ [];
}

abbrev pub mem_client : Client (List DnsEndpoint)
mem_client = record {
  cluster_identities = fixed (λ t. t.meta) (identity_cr ∷ []);
  dns_configurations = fixed (λ t. t.meta) (config_cr ∷ []);
  dns_policies = fixed (λ t. t.meta) (policy ∷ []);
  gateways = fixed (λ t. t.meta) (gateway ∷ []);
  service_routes = fixed (λ t. t.meta) (route ∷ other_route ∷ []);
  services = fixed (λ t. t.meta) (service ∷ []);
  istio_gateways = fixed (λ t. t.meta) [];
  dns_endpoints = mem_store endpoint_kind;
}

-- A condition of the type is replaced, or the condition is added.
abbrev set_condition : List Condition → Condition → List Condition
set_condition [] c = c ∷ []
set_condition (d ∷ ds) c = if d.type == c.type then c ∷ ds else d ∷ set_condition ds c

abbrev pub controller_ref : ObjectMeta → GroupVersionKind → OwnerReference
controller_ref m kind = record {
  api_version = kind.version;
  kind = kind.kind;
  name = m.name;
  uid = m.uid;
  controller = true;
}

abbrev in_order : MapOrder
in_order = record {
  hosts = λ xs. xs;
  namespaces = λ xs. xs;
  desired = λ xs. xs;
  existing = λ xs. xs;
  service_namespaces = λ xs. xs;
  configs = λ xs. xs;
}

pub in_order-IsMapOrder : IsMapOrder in_order
in_order-IsMapOrder = record {
  hosts = λ xs. Perm.refl xs;
  namespaces = λ xs. Perm.refl xs;
  desired = λ xs. Perm.refl xs;
  existing = λ xs. Perm.refl xs;
  service_namespaces = λ xs. Perm.refl xs;
  configs = λ xs. Perm.refl xs;
}

abbrev pub mem_env : Env (List DnsEndpoint)
mem_env = record {
  client = mem_client;
  set_status_condition = set_condition;
  new_controller_ref = controller_ref;
  range = in_order;
  default_router_gateway_namespace = "istio-system";
}

abbrev pub mem_world : List DnsEndpoint → World (List DnsEndpoint)
mem_world s = record { server = s; identity_cache = none; config_cache = none }

-- A server whose state are the Istio Gateways.
abbrev pub istio_client : Client (List IstioGateway)
istio_client = record {
  cluster_identities = fixed (λ t. t.meta) (identity_cr ∷ []);
  dns_configurations = fixed (λ t. t.meta) (config_cr ∷ []);
  dns_policies = fixed (λ t. t.meta) (policy ∷ []);
  gateways = fixed (λ t. t.meta) (gateway ∷ []);
  service_routes = fixed (λ t. t.meta) (route ∷ other_route ∷ []);
  services = fixed (λ t. t.meta) (service ∷ []);
  istio_gateways = mem_store istio_gateway_kind;
  dns_endpoints = fixed (λ t. t.meta) [];
}

abbrev pub istio_env : Env (List IstioGateway)
istio_env = record {
  client = istio_client;
  set_status_condition = set_condition;
  new_controller_ref = controller_ref;
  range = in_order;
  default_router_gateway_namespace = "istio-system";
}
