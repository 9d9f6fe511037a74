-- ===== src/Caches/Identity.antt =====
-- internal/clusteridentity: cache.go and helper.go
use service_router_operator.Base.{String, List, [], ◌∷◌, Option, none, some}
use service_router_operator.Api.{ClusterIdentity}
use service_router_operator.Client.{Env, Identity, M, pure, call, ◌>>=◌, ok, everything}

module _ {S : Type 0} where
  unfoldable pub set : Option Identity → M S (Unit {0})
  set identity w = (ok tt, record w { identity_cache = identity })

  unfoldable pub clear : M S (Unit {0})
  clear w = (ok tt, record w { identity_cache = none })

-- The loop that copies the adopted regions.
unfoldable pub copy_regions : List String → List String
copy_regions [] = []
copy_regions (v ∷ vs) = v ∷ copy_regions vs

unfoldable pub copy : Identity → Identity
unfolding copy_regions
copy cache = record {
  region = cache.region;
  cluster = cache.cluster;
  domain = cache.domain;
  environment_letter = cache.environment_letter;
  adopts_regions = copy_regions cache.adopts_regions;
}

unfoldable pub get : {S : Type 0} → M S (Option Identity)
unfolding copy
get w = elim w.identity_cache [ none ↦ (ok none, w) | some cache ↦ (ok (some (copy cache)), w) ]

-- The identity that a resource describes.
unfoldable pub of_cr : ClusterIdentity → Identity
of_cr cr = record {
  region = cr.spec.region;
  cluster = cr.spec.cluster;
  domain = cr.spec.domain;
  environment_letter = cr.spec.environment_letter;
  adopts_regions = cr.spec.adopts_regions;
}

abbrev pub first_of_list : List ClusterIdentity → Option Identity
unfolding of_cr
first_of_list [] = none
first_of_list (cr ∷ _) = some (of_cr cr)

unfoldable pub fetch : {S : Type 0} → Env S → M S (Option Identity)
unfolding get of_cr
fetch env = do
  identity ← get
  elim identity [
    | some i ↦ pure (some i)
    | none ↦ do
      items ← call (env.client.cluster_identities.list everything)
      pure (first_of_list items)
  ]
