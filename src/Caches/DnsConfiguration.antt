-- ===== src/Caches/DnsConfiguration.antt =====
-- internal/dnsconfiguration: cache.go and helper.go
use service_router_operator.Base.{List, [], ◌∷◌, Option, none, some}
use service_router_operator.Api.{ExternalDnsController, DnsConfiguration}
use service_router_operator.Client.{Env, DnsConfig, M, pure, call, ◌>>=◌, ok, everything}

module _ {S : Type 0} where
  unfoldable pub set : Option DnsConfig → M S (Unit {0})
  set config w = (ok tt, record w { config_cache = config })

  unfoldable pub clear : M S (Unit {0})
  clear w = (ok tt, record w { config_cache = none })

-- The loop that copies the controllers, of the cached value or of a resource.
unfoldable pub copy_controllers : List ExternalDnsController → List ExternalDnsController
copy_controllers [] = []
copy_controllers (v ∷ vs) = record { name = v.name; region = v.region } ∷ copy_controllers vs

unfoldable pub get : {S : Type 0} → M S (Option DnsConfig)
unfolding copy_controllers
get w = elim w.config_cache [
  | none ↦ (ok none, w)
  | some cache ↦
      let copied : DnsConfig = record {
        external_dns_controllers = copy_controllers cache.external_dns_controllers;
      } in
      (ok (some copied), w)
]

-- The configuration that a resource describes.
unfoldable pub of_cr : DnsConfiguration → DnsConfig
unfolding copy_controllers
of_cr cr = record { external_dns_controllers = copy_controllers cr.spec.external_dns_controllers }

abbrev pub first_of_list : List DnsConfiguration → Option DnsConfig
unfolding of_cr
first_of_list [] = none
first_of_list (cr ∷ _) = some (of_cr cr)

unfoldable pub fetch : {S : Type 0} → Env S → M S (Option DnsConfig)
unfolding get of_cr
fetch env = do
  config ← get
  elim config [
    | some c ↦ pure (some c)
    | none ↦ do
      items ← call (env.client.dns_configurations.list everything)
      pure (first_of_list items)
  ]
