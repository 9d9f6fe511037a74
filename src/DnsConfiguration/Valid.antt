-- ===== src/DnsConfiguration/Valid.antt =====
-- Which DNSConfigurations are valid (internal/controller/cluster/dnsconfiguration_controller.go).
use service_router_operator.Base.{
  ℕ, ◌+◌, String, List, [], ◌∷◌, Option, none, some, ◌≡◌, ◌≢◌, ◌↔◌, arith, string_eq, All,
}
use service_router_operator.Api.{ExternalDnsController}
use service_router_operator.Api
use service_router_operator.Client.{DnsConfig}
use service_router_operator.Caches.DnsConfiguration.{of_cr}
use service_router_operator.Caches.Copies.{copy_controllers_same}
use service_router_operator.DnsConfiguration.{validate_controllers, validate_spec}

-- The configuration that the other parts need: at least one controller, each with a name and a region.
abbrev pub IsConfig : DnsConfig → Type 0
IsConfig config =
    (config.external_dns_controllers ≢ [])
    × All (λ c. (c.name ≢ "") × (c.region ≢ "")) config.external_dns_controllers

validate_controllers_iff :
    (i : ℕ) (cs : List ExternalDnsController)
    → (validate_controllers i cs ≡ none) ↔ All (λ c. (c.name ≢ "") × (c.region ≢ "")) cs
unfolding validate_controllers
validate_controllers_iff i [] = ground arith
validate_controllers_iff i (c ∷ cs) = ground (
  arith,
  validate_controllers_iff (i + 1) cs,
  string_eq.test_iff c.name "",
  string_eq.test_iff c.region "",
)

-- The validation accepts a DNSConfiguration exactly if the configuration that Fetch reads from it has
-- a controller, and every controller has a name and a region.
pub validate_spec-IsConfig :
    (cr : Api.DnsConfiguration) → (validate_spec cr ≡ none) ↔ IsConfig (of_cr cr)
unfolding validate_spec of_cr
validate_spec-IsConfig cr =
    rw (copy_controllers_same cr.spec.external_dns_controllers)
      (split cr.spec.external_dns_controllers)
  where
    verdict : List ExternalDnsController → Option String
    verdict [] = some "externalDNSControllers cannot be empty"
    verdict (d ∷ ds) = validate_controllers 0 (d ∷ ds)

    split :
        (cs : List ExternalDnsController)
        → (verdict cs ≡ none) ↔ ((cs ≢ []) × All (λ c. (c.name ≢ "") × (c.region ≢ "")) cs)
    split [] = ground arith
    split (c ∷ cs) = ground (arith, validate_controllers_iff 0 (c ∷ cs))
