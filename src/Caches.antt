-- ===== src/Caches.antt =====
-- internal/clusteridentity (Identity) and internal/dnsconfiguration (DnsConfiguration): each keeps one
-- value in the process, and fetches from the server where the cache is empty. The caches are read
-- and written under a lock, so that each access is one step.
pub mod Identity
pub mod DnsConfiguration
pub mod Copies
