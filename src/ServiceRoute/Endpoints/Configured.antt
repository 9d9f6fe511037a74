-- ===== src/ServiceRoute/Endpoints/Configured.antt =====
-- The map of the configured controllers by name, in `generateDNSEndpoints`
-- (internal/controller/routing/serviceroute_controller.go).
use service_router_operator.Base.{
  is_some, String, List, [], ◌∷◌, Option, none, some, ◌≡◌, refl, arith, any, ◌==◌, if◌then◌else◌,
  Option-cases, inl, inr, string_eq, assign, lookup, lookup-assign,
}
use service_router_operator.Api.{ExternalDnsController}
use service_router_operator.ServiceRoute.Endpoints.{controller_map}

-- The last controller of the configuration with the name.
abbrev pub last_controller : String → List ExternalDnsController → Option ExternalDnsController
last_controller name [] = none
last_controller name (c ∷ cs) = elim (last_controller name cs) [
  | some d ↦ some d
  | none ↦ if c.name == name then some c else none
]

abbrev or_else :
    Option ExternalDnsController → Option ExternalDnsController → Option ExternalDnsController
or_else none o = o
or_else (some d) o = some d

lookup-controller_map_from :
    (name : String) (cs : List ExternalDnsController) (m : List (String × ExternalDnsController))
    → lookup name (controller_map cs m) ≡ or_else (last_controller name cs) (lookup name m)
unfolding controller_map
lookup-controller_map_from name [] m = refl
lookup-controller_map_from name (c ∷ cs) m =
    ground
      (arith, lookup-controller_map_from name cs (assign c.name c m), lookup-assign c.name name c m)

pub lookup-controller_map :
    (name : String) (cs : List ExternalDnsController)
    → lookup name (controller_map cs []) ≡ last_controller name cs
lookup-controller_map name cs = ground (arith, lookup-controller_map_from name cs [])

pub last_controller-name :
    (name : String) (cs : List ExternalDnsController) (c : ExternalDnsController)
    → last_controller name cs ≡ some c
    → c.name ≡ name
last_controller-name name [] c h = cc
last_controller-name name (d ∷ cs) c h = elim (Option-cases (last_controller name cs)) [
  | inl e ↦ ground (arith, string_eq.test_iff d.name name)
  | inr (x, e) ↦ last_controller-name name cs c (ground arith)
]

-- A configuration has a last controller of the name exactly if it has one.
pub last_controller-any :
    (name : String) (cs : List ExternalDnsController)
    → any (λ c. c.name == name) cs ≡ is_some (last_controller name cs)
last_controller-any name [] = refl
last_controller-any name (c ∷ cs) = ground (arith, last_controller-any name cs)
