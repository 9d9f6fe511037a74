-- ===== src/Tests/Same.antt =====
-- When the server in memory finds that a patch is empty: the equality of what it keeps, as a test.
use service_router_operator.Base.{
  ◌&&◌, ◌==◌, ◌≡◌, ◌↔◌, arith, Bool, true, false, Comparable, List, [], ◌∷◌, Option, none, some,
  String, nat_eq, string_eq,
}
use service_router_operator.Api.{DnsEndpointSpec, Endpoint, IstioGatewaySpec, ServerTlsSettings}
use service_router_operator.Api
use service_router_operator.Client.{StoredEndpoint, StoredIstioGateway}
use service_router_operator.Gateway.Istio.{tls_mode_eq}

module _ {A : Type 0} ⦃e : Comparable A⦄ where
  abbrev pub list_test : List A → List A → Bool
  list_test [] [] = true
  list_test (x ∷ xs) (y ∷ ys) = x == y && list_test xs ys
  list_test _ _ = false

  pub list_test_iff : (xs ys : List A) → (list_test xs ys ≡ true) ↔ (xs ≡ ys)
  list_test_iff [] [] = ground arith
  list_test_iff [] (y ∷ ys) = ground arith
  list_test_iff (x ∷ xs) [] = ground arith
  list_test_iff (x ∷ xs) (y ∷ ys) = ground (arith, e.test_iff x y, list_test_iff xs ys)

  instance abbrev pub list_Eq : Comparable (List A)
  list_Eq = record { test = list_test; test_iff = list_test_iff }

  abbrev pub option_test : Option A → Option A → Bool
  option_test none none = true
  option_test (some x) (some y) = x == y
  option_test _ _ = false

  pub option_test_iff : (x y : Option A) → (option_test x y ≡ true) ↔ (x ≡ y)
  option_test_iff none none = ground arith
  option_test_iff none (some y) = ground arith
  option_test_iff (some x) none = ground arith
  option_test_iff (some x) (some y) = ground (arith, e.test_iff x y)

  instance abbrev pub option_Eq : Comparable (Option A)
  option_Eq = record { test = option_test; test_iff = option_test_iff }

-- Labels and selectors.
abbrev pub pair_test : String × String → String × String → Bool
pair_test (k, v) (j, w) = k == j && v == w

pub pair_test_iff : (x y : String × String) → (pair_test x y ≡ true) ↔ (x ≡ y)
pair_test_iff (k, v) (j, w) = ground (arith, string_eq.test_iff k j, string_eq.test_iff v w)

instance abbrev pub pair_Eq : Comparable (String × String)
pair_Eq = record { test = pair_test; test_iff = pair_test_iff }

abbrev pub endpoint_test : Endpoint → Endpoint → Bool
endpoint_test a b =
    a.dns_name == b.dns_name
    && (a.record_type == b.record_type
        && (list_test a.targets b.targets && a.record_ttl == b.record_ttl))

pub endpoint_test_iff : (a b : Endpoint) → (endpoint_test a b ≡ true) ↔ (a ≡ b)
endpoint_test_iff a b = ground (
  arith,
  string_eq.test_iff a.dns_name b.dns_name,
  string_eq.test_iff a.record_type b.record_type,
  list_test_iff a.targets b.targets,
)

instance abbrev pub endpoint_Eq : Comparable Endpoint
endpoint_Eq = record { test = endpoint_test; test_iff = endpoint_test_iff }

abbrev pub stored_endpoint_test : StoredEndpoint → StoredEndpoint → Bool
stored_endpoint_test a b =
    list_test a.labels b.labels
    && (list_test a.annotations b.annotations && list_test a.spec.endpoints b.spec.endpoints)

pub stored_endpoint_test_iff : (a b : StoredEndpoint) → (stored_endpoint_test a b ≡ true) ↔ (a ≡ b)
stored_endpoint_test_iff a b = ground (
  arith,
  list_test_iff a.labels b.labels,
  list_test_iff a.annotations b.annotations,
  list_test_iff a.spec.endpoints b.spec.endpoints,
)

instance abbrev pub stored_endpoint_Eq : Comparable StoredEndpoint
stored_endpoint_Eq = record { test = stored_endpoint_test; test_iff = stored_endpoint_test_iff }

abbrev pub tls_test : ServerTlsSettings → ServerTlsSettings → Bool
tls_test a b = tls_mode_eq a.mode b.mode && a.credential_name == b.credential_name

tls_mode_iff : (a b : Api.TlsMode) → (tls_mode_eq a b ≡ true) ↔ (a ≡ b)
tls_mode_iff a b = ground arith

pub tls_test_iff : (a b : ServerTlsSettings) → (tls_test a b ≡ true) ↔ (a ≡ b)
tls_test_iff a b =
    ground
      (arith, tls_mode_iff a.mode b.mode, string_eq.test_iff a.credential_name b.credential_name)

instance abbrev pub tls_Eq : Comparable ServerTlsSettings
tls_Eq = record { test = tls_test; test_iff = tls_test_iff }

abbrev pub server_test : Api.Server → Api.Server → Bool
server_test a b =
    a.port.number == b.port.number
    && (a.port.name == b.port.name
        && (a.port.protocol == b.port.protocol
            && (list_test a.hosts b.hosts && option_test a.tls b.tls)))

pub server_test_iff : (a b : Api.Server) → (server_test a b ≡ true) ↔ (a ≡ b)
server_test_iff a b = ground (
  arith,
  string_eq.test_iff a.port.name b.port.name,
  string_eq.test_iff a.port.protocol b.port.protocol,
  list_test_iff a.hosts b.hosts,
  option_test_iff a.tls b.tls,
)

instance abbrev pub server_Eq : Comparable Api.Server
server_Eq = record { test = server_test; test_iff = server_test_iff }

abbrev pub stored_istio_gateway_test : StoredIstioGateway → StoredIstioGateway → Bool
stored_istio_gateway_test a b =
    list_test a.labels b.labels
    && (list_test a.spec.selector b.spec.selector && list_test a.spec.servers b.spec.servers)

pub stored_istio_gateway_test_iff :
    (a b : StoredIstioGateway) → (stored_istio_gateway_test a b ≡ true) ↔ (a ≡ b)
stored_istio_gateway_test_iff a b = ground (
  arith,
  list_test_iff a.labels b.labels,
  list_test_iff a.spec.selector b.spec.selector,
  list_test_iff a.spec.servers b.spec.servers,
)

instance abbrev pub stored_istio_gateway_Eq : Comparable StoredIstioGateway
stored_istio_gateway_Eq = record {
  test = stored_istio_gateway_test;
  test_iff = stored_istio_gateway_test_iff;
}
