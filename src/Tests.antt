-- ===== src/Tests.antt =====
-- Concrete runs: a server in memory, and each theorem at an input that meets its hypotheses.
mod Same
mod Memory
mod Fixture
mod Policies
mod Gateways
mod Routes
mod Traffic
mod Settings
mod Istio
mod Ingress
mod Runtime
mod Up
mod Exposed
mod Reached
mod Whole
