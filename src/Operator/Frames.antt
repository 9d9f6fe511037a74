-- ===== src/Operator/Frames.antt =====
-- Which handlers leave the caches as they are (internal/controller/routing).
pub mod Policies
pub mod Routes
pub mod Gateways
pub mod Ingress
pub mod Settings
use service_router_operator.Base.{Option, ◌≡◌, refl, ◌∙◌, ap, arith}
use service_router_operator.Client.{
  Env, World, Identity, DnsConfig, M, Result, ok, err, chain, call, finish, finish_server,
  ReconcileResult,
}
use service_router_operator.Caches

module _ {S : Type 0} where
  abbrev caches : World S → Option Identity × Option DnsConfig
  caches w = (w.identity_cache, w.config_cache)

  -- The caches hold what they held.
  abbrev pub Same : World S → World S → Type 0
  Same w w' = caches w' ≡ caches w

  pub Same-trans : (w w₁ w' : World S) → Same w w₁ → Same w₁ w' → Same w w'
  Same-trans w w₁ w' s t = t ∙ s

  -- A handler that leaves the caches as they are, whether or not it succeeds.
  abbrev pub Keeps : {A : Type 0} → M S A → Type 0
  Keeps m = (w : World S) → Same w (m w).1

  pub Same-chain :
      {A B : Type 0} (w : World S) (p : Result A × World S) (f : A → M S B)
      → Same w p.1
      → ((a : A) → Keeps (f a))
      → Same w (chain p f).1
  Same-chain w (ok a, w₁) f s k = Same-trans w w₁ (f a w₁).1 s (k a w₁)
  Same-chain w (err e, w₁) f s k = s

  pub finish-Same :
      (op : S → Result (Unit {0}) × S) (answer : ReconcileResult) → Keeps (finish (call op) answer)
  finish-Same op answer w = ap caches (finish_server (call op) answer w)

module _ {S : Type 0} (env : Env S) where
  pub fetch_identity-Same : Keeps (Caches.Identity.fetch env)
  unfolding Caches.Identity.fetch Caches.Identity.get
  fetch_identity-Same w = ground arith

  pub fetch_config-Same : Keeps (Caches.DnsConfiguration.fetch env)
  unfolding Caches.DnsConfiguration.fetch Caches.DnsConfiguration.get
  fetch_config-Same w = ground arith
