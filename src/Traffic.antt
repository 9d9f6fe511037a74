-- ===== src/Traffic.antt =====
-- How the parts of the operator fit together: the records and the hosts that two parts derive from one
-- route, and the watches between routes and gateways (internal/controller/routing).
pub mod Records
pub mod Watches
