-- ===== src/Lib.antt =====
-- The service-router operator, which turns routes, gateways and policies of a Kubernetes cluster into
-- Istio Gateways and DNSEndpoints: its controllers as functions over the state of the API server.
--
-- Parts, and the files that model them:
--   Api: the resource types of api/ and the constants of pkg/consts/constants.go, with the fields that
--     the operator uses of Kubernetes', Istio's and ExternalDNS's own types.
--   Client: errors, the client's operations at one kind of object, the state of the operator's process,
--     and the monad of the handlers. A handler takes the world (the server, and the two caches) to a
--     result and the world after it. The client is a parameter: IsStore states what is documented of
--     the API server where only this process writes, and assumes besides that each read sees all
--     earlier writes. A patch is the difference of its two objects, so it leaves the new one only where
--     the server keeps the old one. Any call may fail. Answers states what a server that is up does;
--     which objects its validation accepts is a parameter of it.
--   Caches: internal/clusteridentity and internal/dnsconfiguration (Set, Get, Clear, Fetch).
--   ClusterIdentity, DnsConfiguration: the two controllers of internal/controller/cluster, which
--     validate the cluster's settings and fill the caches.
--   DnsPolicy: internal/controller/routing/dnspolicy_controller.go, which decides whether a policy is
--     active and which ExternalDNS controllers it activates.
--   Gateway: internal/controller/routing/gateway_controller.go, which gathers the hosts of the routes
--     of a gateway into an Istio Gateway; Gateway/Istio is the generated object,
--     Gateway/Pattern the regular expression of the validation, and Gateway/Status the conditions and
--     the updates of the status.
--   ServiceRoute: internal/controller/routing/serviceroute_controller.go; ServiceRoute/Status has
--     the updates of the status, and ServiceRoute/Endpoints the part that generates, writes and
--     removes the DNSEndpoints of a route.
--   IngressDns: internal/controller/routing/ingressdns_controller.go, which keeps the A records of the
--     load balancers and removes those of controllers that no gateway uses; IngressDns/Configs is the
--     set of configurations that gateways use.
--   Traffic: a route's records beside its gateway's hosts and the load balancer's records, and the
--     watches between routes and gateways.
--   Setup: SetupWithManager of each controller. Setup/ControllerRuntime has the builder and the manager
--     of controller-runtime, which are parameters, and their documented behaviour as IsRuntime: which
--     events put which requests on a controller's queue.
--   Main: cmd/main.go, from what flag.Parse makes of the command line to the exit code.
--   Operator: the registered controllers together, as a step relation: a controller takes a request,
--     others write to the server, or the process starts anew. Operator/Frames says which handlers
--     leave the caches as they are.
--   Base: tests, lists, texts, maps and sets that the parts share.
--   Tests: a server in memory, and runs at concrete inputs.
--
-- Correspondence: a handler keeps its name in the repository, with words joined by underscores
-- (updateStatusActive is update_status_active). A Go pair of a value and an error is a Result. A nil
-- pointer is none. A Go map is an association list with distinct keys, and the order in which range
-- visits it is a field of MapOrder, of which only that it is a permutation is assumed. A loop is a
-- function by recursion on the list that it visits, so none needs fuel. A handler that changes the
-- status of the object it has read and then writes it is a pair: active_status gives the object, and
-- update_status_active writes it. Log lines have no effect and are left out.
--
-- Not modelled: the text of the command line, of which Main has the flags and their values, in
-- order, or that it asks for help or is malformed; the options of the logger; reads that are stale,
-- which the manager's client can give, since it reads from a cache, wherever IsStore is assumed;
-- the generated deep copies, since a value is never shared; the mutexes of the caches, since each
-- operation on a cache is one step; the queue of controller-runtime and its retries; two
-- reconciliations whose accesses to the caches interleave.
pub mod Base
pub mod Api
pub mod Client
pub mod Caches
pub mod ClusterIdentity
pub mod DnsConfiguration
pub mod DnsPolicy
pub mod Gateway
pub mod IngressDns
pub mod ServiceRoute
pub mod Traffic
pub mod Operator
pub mod Setup
pub mod Main
pub mod Tests
