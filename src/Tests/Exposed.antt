-- ===== src/Tests/Exposed.antt =====
-- Whole reconciliations of a Gateway on the server in memory
-- (internal/controller/routing/gateway_controller.go).
use service_router_operator.Base.{List, [], none, some, string_eq, Bool}
use service_router_operator.Api.{IstioGateway}
use service_router_operator.Client.{World}
use service_router_operator.Tests.Up.{labels_fit}
use service_router_operator.Tests.Same.{stored_istio_gateway_Eq}
use service_router_operator.Tests.Fixture.{identity}

abbrev empty_world : World (List IstioGateway)
empty_world = record { server = []; identity_cache = some identity; config_cache = none }

abbrev accepts_istio_gateway : IstioGateway → Bool
accepts_istio_gateway d = labels_fit d.meta.labels
