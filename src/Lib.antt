-- ===== src/Lib.antt =====
-- A verification library of the WireGuard operator: the Kubernetes operator that admits peers to
-- WireGuard gateways, the agent that serves a gateway's state, and the client that runs beside an
-- application.
--
-- The parts of the program and the files that model them:
--
-- - Netip: the standard library's net/netip as the code uses it: addresses, prefixes, ParseAddr,
--   ParsePrefix, ParseAddrPort, String. An address is a number below 2 ^ 32 or 2 ^ 128; a prefix
--   keeps its length plus one, as net/netip does, so that the zero Prefix is invalid.
-- - Api: api/v1alpha1, the custom resources (Api/Types); calls of the Kubernetes API as actions over
--   the cluster's state (Api/Exec, Api/Client), each of which may fail and may meet other writers;
--   and the packages outside the repository as interfaces (Api/External): apimachinery's conditions,
--   wgtypes' keys, ipnetgen's addresses.
-- - Ipam: internal/ipam/allocator.go, with addressUsable of internal/controller/peers.go.
-- - Controller/Peers: internal/controller/peers.go, what is recorded on a peer (admissionProblem,
--   gatewayKey, namespaceNotAllowed, peerStatusMatches, markPeerNotReady's status).
-- - Controller/Dedupe: dedupeAddresses and dedupePublicKeys of peers.go. The Go maps of holders are
--   functions from texts.
-- - Controller/Reconcile: reconcilePeers of internal/controller/wireguard_controller.go and all it
--   calls: getWireguardPeers, admittedKeys, admitPeers, releaseLosers, allocatePeers.
-- - Controller/Gateway, Controller/Rollout: internal/controller/gateway.go and specProblem.
-- - Controller/State: desiredState of peers.go, the content of state.json.
-- - Controller/Status: updateStatus, syncPeerIdentity, failDegraded.
-- - Controller/Apply, Controller/Operator: applyOwned, and Reconcile with applyDeployment: the choice
--   of how a reconcile ends (decide), then that ending's last write (conclude).
-- - Resources: internal/resources, the rendered Service, Secret and Deployment.
-- - Controller/Injection: internal/controller/injection_rbac.go and defaultGateway of injection.go;
--   Controller/Injection/Policy has its reconciler and the policy that it renders, with the CEL
--   literals of Controller/Injection/Cel.
-- - Agent: internal/agent/agent.go, the state file as the agent reads it.
-- - Sidecar: internal/sidecar, the client: its configuration and registration (Sidecar), its tunnel
--   (Sidecar/Tunnel), its routes (Sidecar/Routes, Sidecar/RouteTable), its key file (Sidecar/KeyFile),
--   its passes (Sidecar/Pass) and its startup probe (Sidecar/Check).
-- - Wireguard: internal/wireguard/wireguard.go, the server's address and peers; Wireguard/Link has
--   Sync, over the netlink, wgctrl and clock calls of Wireguard/Netlink.
-- - Datapath: internal/datapath, the server's forwarding rules and the probe of the peers' path;
--   Datapath/Ensure has Ensure without its locks, Datapath/Machine concurrent calls of Ensure and Err
--   as a step relation, one step for each taking or giving back of a mutex.
-- - Server: cmd/agent/main.go, the agent's readiness handler and its reactions, with
--   internal/agent/gluetun.go.
-- - Prelude: shared names, texts as lists of bytes, Boolean tests, sorting. Examples: runs and
--   witnesses.
--
-- The operator's reconcile admits peers, settles conflicts of keys and addresses, allocates
-- addresses, and renders the state (Controller/State) that the agent checks and serves (Agent) to the
-- device (Wireguard) and the datapath (Datapath); the client (Sidecar) reads its peer's status.
--
-- Strings are lists of bytes. Numbers are natural; the model writes out where the source wraps or
-- refuses. Loops are structural recursion over lists, but for two: the wait for a link runs on the fuel
-- timeout / 100 ms + 2, which is enough for a clock that its sleeps advance, and TrimSpace on the
-- text's length, since each round takes a byte. Times of transition are left out of conditions,
-- and a creation time is a number. A Go map that is overwritten by later entries is a list in
-- which the first entry found counts, newest first; a map's unspecified order is that of the list.
-- Next of an invalid address is invalid. The texts of error messages are data types that keep what
-- the message names, except the messages recorded on peers, which are written out.
--
-- Parameters: the Kubernetes client with server-side apply, JSON, SHA-256, iptables, netlink,
-- wgctrl, the clock, the file system, wgtypes, the apimachinery condition helpers,
-- SetControllerReference, GetControllerOf, ipnetgen, and the wording of a Wireguard's condition
-- messages, the text of a failed call's error included. Not modelled: the JSON form of the injected sidecar and of the pod selectors, the
-- commands' flags and wiring, generated code.
pub mod Prelude
pub mod Netip
pub mod Examples
pub mod Api
pub mod Controller
pub mod Ipam
pub mod Agent
pub mod Resources
pub mod Server
pub mod Sidecar
pub mod Datapath
pub mod Wireguard
