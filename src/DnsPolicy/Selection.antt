-- ===== src/DnsPolicy/Selection.antt =====
-- Which controllers a policy activates, when it is active, and which policies are valid
-- (internal/controller/routing/dnspolicy_controller.go).
use service_router_operator.Base.{
  String, List, [], ◌∷◌, ◌++◌, Bool, true, false, not, ◌&&◌, ◌||◌, ◌==◌, ◌≡◌, ◌≢◌, ◌⊎◌, ◌↔◌, refl,
  inl, inr, arith, none, any, any_ext, any-or, any-false, any_mono, any-append, contains,
  contains-add, add, string_eq, concat, concat-ne-empty, Bool-cases, ◌∙◌, sym,
}
use service_router_operator.Api.{ExternalDnsController}
use service_router_operator.Api
use service_router_operator.Client.{Identity, DnsConfig}
use service_router_operator.DnsPolicy.{
  append_region, existing_regions, append_adopted, active_mode_controllers, append_names,
  determine_active_controllers, is_policy_active, validate_dns_policy, not_empty_and_not,
}

-- The controller has the name, and is of the region.
abbrev is_of : String → String → ExternalDnsController → Bool
is_of name region c = c.name == name && c.region == region

append_region-contains :
    (name region : String) (cs : List ExternalDnsController) (active : List String)
    → contains name (append_region region cs active)
      ≡ (contains name active || any (is_of name region) cs)
unfolding append_region
append_region-contains name region [] active = ground arith
append_region-contains name region (c ∷ cs) active = ground (
  arith,
  append_region-contains name region cs active,
  append_region-contains name region cs (active ++ c.name ∷ []),
  any-append (λ x. x == name) active (c.name ∷ []),
)

existing_regions-contains :
    (region : String) (cs : List ExternalDnsController) (regions : List String)
    → contains region (existing_regions cs regions)
      ≡ (contains region regions || any (λ c. c.region == region) cs)
unfolding existing_regions
existing_regions-contains region [] regions = ground arith
existing_regions-contains region (c ∷ cs) regions = ground (
  arith,
  existing_regions-contains region cs (add c.region regions),
  contains-add c.region region regions,
)

-- A region with a controller of the name is a region that exists.
exists_of_is_of :
    (name region : String) (cs : List ExternalDnsController)
    → (contains region (existing_regions cs []) && any (is_of name region) cs)
      ≡ any (is_of name region) cs
exists_of_is_of name region cs = ground (
  arith,
  existing_regions-contains region cs [],
  any_mono (is_of name region) (λ c. c.region == region) cs (λ c h. ground arith),
)

append_adopted-contains :
    (name : String) (cs : List ExternalDnsController) (regions active : List String)
    → contains name (append_adopted (existing_regions cs []) cs regions active)
      ≡ (contains name active || any (λ r. any (is_of name r) cs) regions)
unfolding append_adopted
append_adopted-contains name cs [] active = ground arith
append_adopted-contains name cs (r ∷ rs) active = ground (
  arith,
  append_adopted-contains name cs rs active,
  append_adopted-contains name cs rs (append_region r cs active),
  append_region-contains name r cs active,
  exists_of_is_of name r cs,
)

-- A choice of the region, moved inside the choice of the controller.
any-regions :
    (name : String) (cs : List ExternalDnsController) (regions : List String)
    → any (λ r. any (is_of name r) cs) regions
      ≡ any (λ c. c.name == name && contains c.region regions) cs
any-regions name cs [] =
    sym (any_ext (λ c. c.name == name && false) (λ _. false) cs (λ c. ground arith) ∙ any-false cs)
any-regions name cs (r ∷ rs) = rw (any-regions name cs rs) (
    sym (any-or (is_of name r) (λ c. c.name == name && contains c.region rs) cs)
    ∙ any_ext (λ c. is_of name r c || (c.name == name && contains c.region rs))
        (λ c. c.name == name && contains c.region (r ∷ rs)) cs
        (λ c. ground (arith, string_eq.test_iff c.region r, string_eq.test_iff r c.region)))

append_names-contains :
    (name : String) (cs : List ExternalDnsController) (active : List String)
    → contains name (append_names cs active)
      ≡ (contains name active || any (λ c. c.name == name) cs)
unfolding append_names
append_names-contains name [] active = ground arith
append_names-contains name (c ∷ cs) active = ground (
  arith,
  append_names-contains name cs (active ++ c.name ∷ []),
  any-append (λ x. x == name) active (c.name ∷ []),
)

active_mode_controllers-contains :
    (name : String) (identity : Identity) (config : DnsConfig) (regions : List String)
    → identity.adopts_regions ≡ regions
    → contains name (active_mode_controllers identity config) ≡ (
        any (is_of name identity.region) config.external_dns_controllers
        || any (λ r. any (is_of name r) config.external_dns_controllers) regions)
unfolding active_mode_controllers
active_mode_controllers-contains name identity config [] e =
    rw (e, active_mode_controllers)
      (ground
        (arith, append_region-contains name identity.region config.external_dns_controllers []))
active_mode_controllers-contains name identity config (r ∷ rs) e =
    let cs = config.external_dns_controllers in
    rw (e, active_mode_controllers)
      (ground (
        arith,
        append_region-contains name identity.region cs [],
        append_adopted-contains name cs (r ∷ rs) (append_region identity.region cs []),
      ))

-- The test that a controller passes to be activated in a mode.
abbrev pub is_selected : String → Identity → ExternalDnsController → Bool
is_selected mode identity c =
    not (mode == "Active")
    || (c.region == identity.region || contains c.region identity.adopts_regions)

-- In each mode the active controllers are exactly the names of the configured controllers that the
-- mode selects: all of them, except in mode Active, where the controller's region must be the
-- cluster's own or one that it adopts.
pub determine_active_controllers-contains :
    (name : String) (p : Api.DnsPolicy) (identity : Identity) (config : DnsConfig)
    → contains name (determine_active_controllers p identity config)
      ≡ any
          (λ c. c.name == name && is_selected p.spec.mode identity c)
          config.external_dns_controllers
unfolding determine_active_controllers
determine_active_controllers-contains name p identity config =
    let cs = config.external_dns_controllers in
    elim (Bool-cases (p.spec.mode == "Active")) [
      | inl e ↦ rw e (
          active_mode_controllers-contains name identity config identity.adopts_regions refl
          ∙ rw (any-regions name cs identity.adopts_regions) (
              sym (
                any-or (is_of name identity.region)
                  (λ c. c.name == name && contains c.region identity.adopts_regions) cs)
              ∙ any_ext
                  (λ c.
                    is_of name identity.region c
                    || (c.name == name && contains c.region identity.adopts_regions))
                  (λ c.
                    c.name == name
                    && (c.region == identity.region || contains c.region identity.adopts_regions))
                  cs (λ c. ground arith)))
      | inr e ↦ rw e (
          append_names-contains name cs []
          ∙ any_ext (λ c. c.name == name) (λ c. c.name == name && true) cs (λ c. ground arith))
    ]

-- A source of the policy's spec, if it is given, is the cluster's own.
abbrev pub Fits : String → String → Type 0
Fits source own = (source ≡ "") ⊎ (source ≡ own)

not_empty_and_not-Fits :
    (source own : String) → (not_empty_and_not source own ≡ false) ↔ Fits source own
not_empty_and_not-Fits source own =
    ground (arith, string_eq.test_iff source "", string_eq.test_iff source own)

mismatch-ne-empty :
    (before source between own : String)
    → before ≢ ""
    → concat (before ∷ source ∷ between ∷ own ∷ "'" ∷ []) ≡ ""
    → false ≡ true
mismatch-ne-empty before source between own h e =
    absurd (concat-ne-empty before (source ∷ between ∷ own ∷ "'" ∷ []) h e)

-- A policy is active exactly if both its source region and its source cluster, where they are given,
-- are the cluster's own; and it gives a reason exactly if it is not.
pub is_policy_active_iff :
    (p : Api.DnsPolicy) (identity : Identity)
    → (((is_policy_active p identity).0 ≡ true)
        ↔ (Fits p.spec.source_region identity.region × Fits p.spec.source_cluster identity.cluster))
      × (((is_policy_active p identity).1 ≡ "") ↔ ((is_policy_active p identity).0 ≡ true))
unfolding is_policy_active
is_policy_active_iff p identity =
    let region_test = not_empty_and_not p.spec.source_region identity.region in
    let cluster_test = not_empty_and_not p.spec.source_cluster identity.cluster in
    let region_fits = not_empty_and_not-Fits p.spec.source_region identity.region in
    let cluster_fits = not_empty_and_not-Fits p.spec.source_cluster identity.cluster in
    elim (Bool-cases region_test) [
      | inl bad ↦ rw bad (
        (cc, λ fits. cc (region_fits.1 fits.0)),
        (
          mismatch-ne-empty "SourceRegion '" p.spec.source_region
              "' does not match cluster region '" identity.region
              (ground (arith, string_eq.test_iff "SourceRegion '" "")),
          cc,
        ),
      )
      | inr good ↦ elim (Bool-cases cluster_test) [
        | inl bad ↦
            rw (good, bad)
              (
                (cc, λ fits. cc (cluster_fits.1 fits.1)),
                (
                  mismatch-ne-empty "SourceCluster '" p.spec.source_cluster
                      "' does not match cluster name '" identity.cluster
                      (ground (arith, string_eq.test_iff "SourceCluster '" "")),
                  cc,
                ),
              )
        | inr fine ↦
            rw (good, fine)
              ((λ _. (region_fits.0 good, cluster_fits.0 fine), λ _. refl), (λ _. refl, λ _. refl))
      ]
    ]

-- A policy passes the validation exactly if its mode is one of the two and there is a controller.
validate_dns_policy_iff :
    (p : Api.DnsPolicy) (config : DnsConfig)
    → (validate_dns_policy p config ≡ none) ↔ (
        ((p.spec.mode ≡ "Active") ⊎ (p.spec.mode ≡ "RegionBound"))
        × (config.external_dns_controllers ≢ []))
unfolding validate_dns_policy
validate_dns_policy_iff p config =
    ground
      (arith, string_eq.test_iff p.spec.mode "Active", string_eq.test_iff p.spec.mode "RegionBound")
