-- ===== src/Tests/Settings.antt =====
-- The cluster's settings at concrete inputs (internal/controller/cluster).
use service_router_operator.Base.{
  String, List, [], ◌∷◌, true, not, none, some, any, contains, All, ◌&&◌, ◌==◌, string_eq, ◌≡◌, ◌≢◌,
  ◌↔◌, refl, inl, codes, arith,
}
use service_router_operator.Api.{ConditionStatus, NamespacedName, DnsEndpoint, ClusterIdentity}
use service_router_operator.Client.{ok, Env}
use service_router_operator.Caches
use service_router_operator.Caches.Identity.{of_cr}
use service_router_operator.ClusterIdentity.{
  validate_spec, invalid_regions, existing_regions, adopted_condition, reconcile,
}
use service_router_operator.ClusterIdentity.Valid.{
  IsIdentity, validate_spec-IsIdentity, invalid_regions_lem,
}
use service_router_operator.ClusterIdentity.Cached.{
  CacheValid, fetch-reconcile, reconcile_rejected, reconcile-CacheValid,
}
use service_router_operator.DnsConfiguration
use service_router_operator.DnsConfiguration.Valid.{IsConfig, validate_spec-IsConfig}
use service_router_operator.DnsConfiguration.Cached.{
  ConfigCacheValid, fetch_config-reconcile, reconcile-ConfigCacheValid,
}
use service_router_operator.Gateway.{validate_gateway}
use service_router_operator.Gateway.Valid.{validate_gateway_iff}
use service_router_operator.Gateway.Pattern.{Matches, postfix_pattern}
use service_router_operator.Tests.Fixture.{
  mem_env, mem_world, mem_client, gateway, identity_cr, config_cr, west_controller,
}
use service_router_operator.Tests.Memory.{fixed}

abbrev key : NamespacedName
key = record { name = "identity"; namespace = "" }

abbrev config_key : NamespacedName
config_key = record { name = "dns"; namespace = "" }

validate_spec-IsIdentity_example :
    (validate_spec identity_cr ≡ none) ↔ IsIdentity (of_cr identity_cr)
validate_spec-IsIdentity_example = validate_spec-IsIdentity identity_cr

validate_spec-IsConfig_example :
    (DnsConfiguration.validate_spec config_cr ≡ none)
    ↔ IsConfig (Caches.DnsConfiguration.of_cr config_cr)
validate_spec-IsConfig_example = validate_spec-IsConfig config_cr

invalid_regions_lem_example :
    ((region : String)
      → contains region (invalid_regions (existing_regions (west_controller ∷ []) []) ("neu" ∷ []))
        ≡ (contains region ("neu" ∷ [])
            && not (any (λ c. c.region == region) (west_controller ∷ []))))
    × (((adopted_condition 1
            (invalid_regions (existing_regions (west_controller ∷ []) []) ("neu" ∷ []))).status
          ≡ ConditionStatus.condition_true)
        ↔ All (λ region. any (λ c. c.region == region) (west_controller ∷ []) ≡ true) ("neu" ∷ []))
invalid_regions_lem_example = invalid_regions_lem 1 (west_controller ∷ []) ("neu" ∷ [])

identity_cr-IsIdentity : IsIdentity (of_cr identity_cr)
unfolding validate_spec
identity_cr-IsIdentity = (validate_spec-IsIdentity identity_cr).0 refl

fetch-reconcile_example :
    Caches.Identity.fetch mem_env (reconcile mem_env key (mem_world [])).1
    ≡ (ok (some (of_cr identity_cr)), (reconcile mem_env key (mem_world [])).1)
fetch-reconcile_example =
    fetch-reconcile mem_env key (mem_world []) identity_cr [] refl (identity_cr ∷ []) [] refl
      (ground arith) identity_cr-IsIdentity

reconcile-CacheValid_example : CacheValid (reconcile mem_env key (mem_world [])).1.identity_cache
reconcile-CacheValid_example = reconcile-CacheValid mem_env key (mem_world []) tt

config_cr-IsConfig : IsConfig (Caches.DnsConfiguration.of_cr config_cr)
unfolding DnsConfiguration.validate_spec DnsConfiguration.validate_controllers
config_cr-IsConfig = (validate_spec-IsConfig config_cr).0 refl

fetch_config-reconcile_example :
    Caches.DnsConfiguration.fetch mem_env
      (DnsConfiguration.reconcile mem_env config_key (mem_world [])).1
    ≡ (
      ok (some (Caches.DnsConfiguration.of_cr config_cr)),
      (DnsConfiguration.reconcile mem_env config_key (mem_world [])).1,
    )
fetch_config-reconcile_example =
    fetch_config-reconcile mem_env config_key (mem_world []) config_cr [] refl (config_cr ∷ []) []
      refl (ground arith) config_cr-IsConfig

reconcile-ConfigCacheValid_example :
    ConfigCacheValid (DnsConfiguration.reconcile mem_env config_key (mem_world [])).1.config_cache
reconcile-ConfigCacheValid_example = reconcile-ConfigCacheValid mem_env config_key (mem_world []) tt

validate_gateway_iff_example : (validate_gateway gateway ≡ none) ↔ (
    (gateway.spec.controller ≢ "")
    × (gateway.spec.credential_name ≢ "")
    × Matches postfix_pattern (codes gateway.spec.target_postfix))
validate_gateway_iff_example = validate_gateway_iff gateway

-- An identity without a region.
abbrev nameless : ClusterIdentity
nameless = record identity_cr { spec = record (identity_cr.spec) { region = "" } }

abbrev nameless_env : Env (List DnsEndpoint)
nameless_env = record mem_env {
  client = record mem_client { cluster_identities = fixed (λ t. t.meta) (nameless ∷ []) };
}

nameless-IsIdentity : ¬ IsIdentity (of_cr nameless)
unfolding of_cr
nameless-IsIdentity (region, _, _, _) = region refl

reconcile_rejected_example : (reconcile nameless_env key (mem_world [])).1.identity_cache ≡ none
reconcile_rejected_example =
    reconcile_rejected nameless_env key (mem_world []) nameless [] refl (nameless ∷ []) [] refl
      (inl nameless-IsIdentity)
