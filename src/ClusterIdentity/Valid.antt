-- ===== src/ClusterIdentity/Valid.antt =====
-- Which ClusterIdentities are valid (internal/controller/cluster/clusteridentity_controller.go).
use service_router_operator.Base.{
  ℕ, String, List, [], ◌∷◌, none, true, not, ◌||◌, ◌&&◌, ◌≡◌, ◌≢◌, ◌↔◌, ◌==◌, refl, arith,
  string_eq, any, All, contains, contains-add, add, sym, ◌∙◌, Bool-cases, inl, inr,
}
use service_router_operator.Api.{ExternalDnsController, Condition, ConditionStatus}
use service_router_operator.Api
use service_router_operator.Client.{Identity}
use service_router_operator.Caches.Identity.{of_cr}
use service_router_operator.ClusterIdentity.{
  validate_spec, existing_regions, invalid_regions, adopted_condition,
}

-- The identity that the other parts need: every name is given.
abbrev pub IsIdentity : Identity → Type 0
IsIdentity i = (i.region ≢ "") × (i.cluster ≢ "") × (i.domain ≢ "") × (i.environment_letter ≢ "")

-- The validation accepts a ClusterIdentity exactly if the identity that Fetch reads from it has a
-- region, a cluster, a domain and an environment letter.
pub validate_spec-IsIdentity :
    (cr : Api.ClusterIdentity) → (validate_spec cr ≡ none) ↔ IsIdentity (of_cr cr)
unfolding validate_spec of_cr
validate_spec-IsIdentity cr = ground (
  arith,
  string_eq.test_iff cr.spec.region "",
  string_eq.test_iff cr.spec.cluster "",
  string_eq.test_iff cr.spec.domain "",
  string_eq.test_iff cr.spec.environment_letter "",
)

existing_regions-contains :
    (region : String) (cs : List ExternalDnsController) (regions : List String)
    → contains region (existing_regions cs regions)
      ≡ (contains region regions || any (λ c. c.region == region) cs)
unfolding existing_regions
existing_regions-contains region [] regions = ground arith
existing_regions-contains region (c ∷ cs) regions = ground (
  arith,
  existing_regions-contains region cs (add c.region regions),
  contains-add c.region region regions,
)

invalid_regions-contains :
    (region : String) (existing regions : List String)
    → contains region (invalid_regions existing regions)
      ≡ (contains region regions && not (contains region existing))
unfolding invalid_regions
invalid_regions-contains region existing [] = refl
invalid_regions-contains region existing (r ∷ rs) =
    ground (arith, invalid_regions-contains region existing rs, string_eq.test_iff r region)

adopted_condition-nil :
    (generation : ℕ) (invalid : List String)
    → ((adopted_condition generation invalid).status ≡ ConditionStatus.condition_true)
      ↔ (invalid ≡ [])
unfolding adopted_condition
adopted_condition-nil generation [] = ground arith
adopted_condition-nil generation (r ∷ rs) = ground arith

module _ (cs : List ExternalDnsController) where
  existing-any :
      (region : String)
      → contains region (existing_regions cs []) ≡ any (λ c. c.region == region) cs
  existing-any region = ground (arith, existing_regions-contains region cs [])

  all_found :
      (regions : List String)
      → invalid_regions (existing_regions cs []) regions ≡ []
      → All (λ region. any (λ c. c.region == region) cs ≡ true) regions
  unfolding invalid_regions
  all_found [] h = tt
  all_found (r ∷ rs) h = elim (Bool-cases (contains r (existing_regions cs []))) [
    | inl e ↦ (sym (existing-any r) ∙ e, all_found rs (ground arith))
    | inr e ↦ absurd (ground arith)
  ]

  none_missing :
      (regions : List String)
      → All (λ region. any (λ c. c.region == region) cs ≡ true) regions
      → invalid_regions (existing_regions cs []) regions ≡ []
  unfolding invalid_regions
  none_missing [] h = refl
  none_missing (r ∷ rs) (p, h) = rw (existing-any r ∙ p) (none_missing rs h)

-- The regions found invalid are exactly the adopted ones for which no controller is configured; and
-- the condition is true exactly if there are none.
pub invalid_regions_lem :
    (generation : ℕ) (cs : List ExternalDnsController) (regions : List String)
    → ((region : String)
        → contains region (invalid_regions (existing_regions cs []) regions)
          ≡ (contains region regions && not (any (λ c. c.region == region) cs)))
      × (((adopted_condition generation (invalid_regions (existing_regions cs []) regions)).status
            ≡ ConditionStatus.condition_true)
          ↔ All (λ region. any (λ c. c.region == region) cs ≡ true) regions)
invalid_regions_lem generation cs regions =
    let invalid = invalid_regions (existing_regions cs []) regions in
    let found : (region : String)
        → contains region invalid
          ≡ (contains region regions && not (any (λ c. c.region == region) cs)) =
      λ region. ground (
        arith,
        invalid_regions-contains region (existing_regions cs []) regions,
        existing_regions-contains region cs [],
      ) in
    let none_invalid = adopted_condition-nil generation invalid in
    (
      found,
      (
        (λ valid. all_found cs regions (none_invalid.0 valid)),
        λ all. none_invalid.1 (none_missing cs regions all),
      ),
    )
