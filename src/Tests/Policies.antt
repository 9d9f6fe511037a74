-- ===== src/Tests/Policies.antt =====
-- The policies at concrete inputs (internal/controller/routing/dnspolicy_controller.go).
use service_router_operator.Base.{
  any, ◌&&◌, ◌==◌, String, [], ◌∷◌, true, contains, string_eq, ◌≡◌, ◌↔◌, refl,
}
use service_router_operator.DnsPolicy.{
  determine_active_controllers, is_policy_active, validate_dns_policy, active_mode_controllers,
  append_region, append_adopted, existing_regions, append_names,
}
use service_router_operator.DnsPolicy.Selection.{
  is_selected, determine_active_controllers-contains, Fits, is_policy_active_iff,
}
use service_router_operator.Api.{DnsPolicyStatus}
use service_router_operator.DnsPolicy.Decision.{Writes, decide-Writes}
use service_router_operator.Tests.Fixture.{mem_env, mem_world, policy, identity, config}

determine_active_controllers-contains_example :
    contains "dns-neu" (determine_active_controllers policy identity config) ≡ true
determine_active_controllers-contains_example =
    determine_active_controllers-contains "dns-neu" policy identity config

is_policy_active_iff_example :
    (((is_policy_active policy identity).0 ≡ true) ↔ (Fits "weu" "weu" × Fits "" "aks01"))
    × (((is_policy_active policy identity).1 ≡ "") ↔ ((is_policy_active policy identity).0 ≡ true))
is_policy_active_iff_example = is_policy_active_iff policy identity

both_regions : determine_active_controllers policy identity config ≡ "dns-weu" ∷ "dns-neu" ∷ []
unfolding determine_active_controllers active_mode_controllers append_region append_adopted
    existing_regions append_names
both_regions = refl

decide-Writes_example :
    (status : DnsPolicyStatus) × Writes mem_env policy identity config (mem_world []) status
    × ((status.active ≡ true) ↔ (Fits "weu" "weu" × Fits "" "aks01"))
    × ((name : String)
        → contains name status.active_controllers ≡ (
            status.active
            && any
                (λ c. c.name == name && is_selected "Active" identity c)
                config.external_dns_controllers))
unfolding validate_dns_policy
decide-Writes_example = decide-Writes mem_env policy identity config (mem_world []) refl
