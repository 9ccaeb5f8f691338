-- ===== src/Lib.antt =====
-- The Altinity ClickHouse provider for OpenEverest: what it does for each Instance, as definitions, and
-- the theorems on them.
--
-- The provider runs inside a controller runtime. For an Instance it renders a ClickHouseInstallation
-- (CHI) and, in the replicated topology, a ClickHouseKeeperInstallation (CHK) of the Altinity operator,
-- keeps a credentials Secret, certificates and NetworkPolicies, and reports a status. The parts:
--
-- - Prelude: tests, lists, integers, decimal numerals, text and errors that the parts share.
-- - Common: internal/common/spec.go, the names, ports and keys.
-- - Operator, Instance: the operator's types and the Instance (definition/components/types.go), with
--   the fields that the provider reads or writes.
-- - Cluster: the Kubernetes API. The server is not part of the repository, so an `Api` answers each
--   call from the history of the calls before it, and a handler is an action of `Exec` that returns
--   its result or error and the history that it leaves. The theorems hold for every `Api`. The data of
--   Secrets is Cluster.Secret. Cluster.Effects counts the calls of an action by a test, Cluster.Bounds
--   bounds them, Cluster.Inversion takes a chain that succeeded apart, and Cluster.Success is about the
--   API in which no call fails.
-- - Keeper: internal/provider/keeper_tls.go, nextKeeperWiring and its three stages, chkPorts and
--   chiKeeperPort; Keeper.Live is liveKeeperState and planKeeperWiring, Keeper.Zookeeper is
--   keeperZookeeper. Keeper.Switch is the system of the provider's Syncs, the operator's rollouts and
--   the user's changes of the TLS setting, as a relation of steps. While an object is rolled out, each
--   pod may run any configuration that was applied since the last finished rollout. A rendering that was
--   applied before has its old task ID, so what the operator's status says of a changed rendering right
--   after its apply is an argument of the Sync. Keeper.Switch.Invariant and
--   Keeper.Switch.Moves are about what each move keeps, and Keeper.Switch.Rounds has the rounds of a
--   Sync and the rollouts, and tests of every switch.
-- - Rollout: internal/provider/rollout.go, the gate that holds back provider-initiated changes, its
--   decision, and the record of what was applied. Rollout.Later is about the gate of a later Sync. The
--   fingerprints of renderings are parameters.
-- - Credentials: internal/provider/users.go, the credentials Secret: what it starts from, what is
--   generated, and the digests and revisions that follow. SHA-256 and the random passwords are
--   parameters.
-- - Sizing, Expose: of internal/provider/provider.go the replicas, resources and storage, and
--   configureExpose; clientPorts of internal/provider/connection.go and appliedTLSRequired of
--   internal/provider/netpol.go stand with the latter. The operator's default ports are a parameter,
--   with the numbers that it documents as a hypothesis.
-- - Tls: internal/provider/tls.go, the parameters and names; Tls.Resources has the cert-manager
--   objects and the cleanup. Whether a CHI's files have an entry is a parameter.
-- - NetPol: internal/provider/netpol.go, the two NetworkPolicies and operatorPeer. What the process
--   finds in its environment is a parameter. NetPol.Connections says which connections policies admit.
-- - Runtime: what comes from packages outside the repository, as one parameter: the catalog of images,
--   labels, the operator's settings, the parsers of YAML and versions, status conditions.
-- - Image, Scheduling, Monitoring: resolveImage of internal/provider/provider.go, and
--   internal/provider/scheduling.go and monitoring.go.
-- - Render: buildCHIWired and buildCHKWired of internal/provider/provider.go, in Render.Chi and
--   Render.Chk, with the settings, users and files of users.go and tls.go. Render.Wiring,
--   Render.Certificate and Render.Switching read the rendered objects back as the next Sync does, and
--   Render.Errors is about failures.
-- - Sync: Sync, sync, syncReplicated, syncStandalone and applyAndWaitForCHI of
--   internal/provider/provider.go, as actions of Exec. Sync.Effects, Sync.Preparing, Sync.Publishing
--   and Sync.Finishing are about the parts that apply neither installation and request no maintenance,
--   Sync.Gated and Sync.Once about those that do, Sync.Holding about the wait for Keeper, Sync.Certified
--   about the wait for the certificate, Sync.Done about a Sync that ends,
--   Sync.Progress about the clusters in which it does, Sync.Reporting about the status, and
--   Sync.Monitored about a PodMonitor that cannot be reconciled.
-- - Validation: internal/provider/validate.go, split into the spec, versions, settings, volumes and the
--   tests on what is deployed. Messages leave out the quantities that they print.
--   Validation.Unchanged and Validation.Rendered compare an Instance with its own rendering.
-- - Watches: instanceForClientService and loadBalancerAddressChanged of internal/provider/tls.go.
-- - Connection: internal/provider/connection.go, the connection details. URL syntax is a parameter.
-- - Status: internal/provider/status.go, and waitForCHI and waitForCHK of internal/provider/provider.go.
-- - Cleanup: of internal/provider/provider.go what happens when an Instance is deleted;
--   Cleanup.Volumes and Cleanup.Order are about what is deleted late, Cleanup.Done about its end.
-- - Examples, Status.Examples: concrete Instances, and the theorems applied to them.
--
-- How the parts interact: Status and the waits of Sync read the same operator status through
-- Rollout.rolled_out; Keeper.Live reads the objects that the gate applied; Expose decides the ports that
-- NetPol reads back from the live CHI; Tls names the hosts that Keeper.Zookeeper wires ClickHouse to;
-- Sync chains Credentials, Tls, Keeper.Live, Render, Rollout, NetPol, Monitoring and Status; Validation
-- reads what Render has put into the deployed CHI and CHK.
--
-- Bounds: there is no fuel, since every loop runs over a list or a count. Go's int is a natural number or
-- ℤ; the revisions of the credentials are parsed and printed as 64-bit decimals, and the theorem on
-- rotation has them below the largest one. Quantities are natural numbers of one unit for each resource.
--
-- Not modelled: log lines, the registration of types and watches in New of internal/provider/provider.go,
-- the RBAC markers of internal/provider/rbac.go, and the start-up in cmd/provider/main.go. They have no
-- behaviour of the provider's own.
pub mod Prelude
pub mod Common
pub mod Operator
pub mod Instance
pub mod Cluster
pub mod Runtime
pub mod Keeper
pub mod Rollout
pub mod Credentials
pub mod Sizing
pub mod Tls
pub mod Expose
pub mod NetPol
pub mod Connection
pub mod Status
pub mod Monitoring
pub mod Scheduling
pub mod Image
pub mod Render
pub mod Sync
pub mod Validation
pub mod Watches
pub mod Cleanup
pub mod Examples
