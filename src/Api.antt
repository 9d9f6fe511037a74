-- ===== src/Api.antt =====
-- The objects that the operator reads and writes: what it uses of Kubernetes' own types (Meta), its
-- two API groups, under api/ (Cluster, Routing), and the objects of Istio, ExternalDNS and the core
-- group (External). pkg/consts/constants.go is Consts.
mod Consts
mod Meta
mod Cluster
mod Routing
mod External
pub use Consts.*
pub use Meta.*
pub use Cluster.*
pub use Routing.*
pub use External.*
