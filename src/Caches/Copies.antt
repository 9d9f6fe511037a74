-- ===== src/Caches/Copies.antt =====
-- The copies that the caches hand out (internal/clusteridentity/cache.go and
-- internal/dnsconfiguration/cache.go).
use service_router_operator.Base.{String, List, [], ◌∷◌, ◌≡◌, refl, ap}
use service_router_operator.Api.{ExternalDnsController}
use service_router_operator.Client.{Identity}
use service_router_operator.Caches.Identity.{copy_regions, copy}
use service_router_operator.Caches.DnsConfiguration.{copy_controllers}

copy_regions_same : (regions : List String) → copy_regions regions ≡ regions
unfolding copy_regions
copy_regions_same [] = refl
copy_regions_same (r ∷ rs) = ap (◌∷◌ r) (copy_regions_same rs)

pub copy_controllers_same : (cs : List ExternalDnsController) → copy_controllers cs ≡ cs
unfolding copy_controllers
copy_controllers_same [] = refl
copy_controllers_same (c ∷ cs) = ap (◌∷◌ c) (copy_controllers_same cs)

pub copy_same : (identity : Identity) → copy identity ≡ identity
unfolding copy
copy_same identity =
    ap (λ regions. record identity { adopts_regions = regions })
      (copy_regions_same identity.adopts_regions)
