-- ===== src/Lib.antt =====
-- A model of the lbconfig operator: a Kubernetes operator that configures external load balancers.
--
-- The custom resource ExternalLoadBalancer names nodes by role or labels, ports, a monitor and a
-- vendor's load balancer. The reconcile loop reads the resource, its secret and the nodes, creates
-- the vendor's provider, and calls the handlers of the backend controller, which read the monitor,
-- the pools and the virtual servers through the provider and create, edit or delete what differs.
-- A deleted resource is cleaned up from its status. A node's event enqueues the resources that
-- select it.
--
-- Files and code:
--   Base and Base/*      what Go gives: equality tests, maps as association lists, decimal texts
--                        (Itoa and Atoi with its errors), Split, Trim and TrimLeft (Base/Text),
--                        ToLower over ASCII, and calls that return a value, an error or panic and
--                        change a world (Base/Effects: Outcome, Action).
--                        Base/Keeps and Base/Ends say what a call leaves alone or true, however it
--                        ends.
--   Api                  api/v1/externalloadbalancer_types.go: the custom resource.
--   Backend              internal/controller/backend/backend_controller/backend_controller.go: the
--                        interface Provider as a record of calls. Backend/Handle has HandleMonitors,
--                        HandlePool, HandleVIP, HandleCleanup and ContainsMember. Backend/Device has
--                        the specification: a device as three maps by name, and the laws of a
--                        provider over it. Backend/Members, MemberSync, PoolWrites, Converge, Single,
--                        Idle, Again, Loops, Stages and Cleanup are about the handlers on such a device.
--                        Backend/Deletes is about what HandleCleanup leaves true, however it ends.
--   Registry             RegisterProvider, ListProviders and CreateBackend of the same file, and
--                        internal/controller/backend/backend_loader.
--   Labels, Nodes        internal/controller/utility_functions.go: computeLabels, containsLabels,
--                        getNodeIP, hasNodeChanged; and the selection of ready nodes in Reconcile.
--   Reconcile            internal/controller/externalloadbalancer_controller.go: the objects that
--                        Reconcile makes for each port. Reconcile/Loop has Reconcile,
--                        finalizeLoadBalancer and addFinalizer; the other children follow a run from
--                        the calls of the cluster to the device: Pools, Vips and Configure a session
--                        with the provider, Again a second one, Served, Whole and Deleted a run for a
--                        load balancer that stays or goes, Settled a second run, Kept a cleanup that
--                        fails, Refused a run that stops early. Isolated, Answers, Cleaned and
--                        Untouched are about what any run leaves alone. Guarded is about what a run
--                        leaves true, and Atomic about providers that write when their session is
--                        closed.
--   Watch                the map function and the event filter of SetupWithManager.
--   Providers            internal/controller/backend: the vendors' providers, each over a cell of the
--                        world that holds its object. Providers/Dummy has dummy/dummy_controller.go.
--                        Providers/Haproxy has haproxy/haproxy_controller.go over a record of the
--                        data plane client's calls: Session its creation and its transaction,
--                        Objects the pools, members and virtual servers; Aborts, Servers and
--                        Monitored are about its errors, the members that it reads back and the
--                        monitor that it remembers. Transaction and Atomic are about the data plane's
--                        running configuration, Names, Book and Pools about servers under their names.
--                        Providers/F5 has f5/f5_controller.go over a record of the BIG-IP client's
--                        calls: Config the records that it sends and what it reads in the answers,
--                        Calls and Methods its methods; RoundTrips and Trimmed what it reads back.
--                        Appliance states the laws of a BIG-IP, and View, Runs, MemberWrites, Refines
--                        and Synced are the refinement of the handlers' device by its pools. Objects
--                        states the laws of its monitors and virtual servers, Lawful their refinement,
--                        and Provides completes it: the provider obeys all the laws that Reconcile
--                        relies on. Servers is about what GetVIP does not read.
--                        Providers/Netscaler has netscaler/netscaler_controller.go over a record of
--                        the Nitro client's calls, whose answers are maps of values of any type: Config,
--                        Calls and Methods as for F5, Answers how a Netscaler answers, Laws what the
--                        handlers then do.
--   Startup              cmd/main.go: the flags, the set-up of the manager and its exits. Tls is about
--                        the TLS options of the servers, Start about a start without errors.
--   Examples             a provider, a cluster, a data plane and a BIG-IP in memory, and the theorems
--                        at concrete inputs.
--
-- Parameters. The Kubernetes client, controllerutil's finalizer helpers and the metrics registry are
-- the fields of Reconcile.Cluster; a vendor's provider is a Backend.Backend. Where a theorem needs
-- their behaviour it takes it as a hypothesis: Reconcile.Served.Serves says that the cluster answers
-- for one resource, and MonitorLaws, PoolLaws and VipLaws of Backend/Device say that a provider's
-- calls read and write the device by name, with an edit of a pool setting its monitor only. A law
-- holds of what the provider suits: of a monitor or virtual server under a name that it can read and
-- bring to what is asked for, and of pools of which it can keep the members and the monitor's name
-- (Fits). It may name a member anew. The F5 provider obeys all of them (Providers.F5.Provides) on a
-- BIG-IP that obeys Providers.F5.Appliance.BigIpLaws and Providers.F5.Objects.ObjectLaws, which
-- speak of the client's calls, with one partition for the operator's F5 load balancers. It suits a
-- monitor that it reads back (a port of an int other than 0, a type without a slash, a path that
-- does not begin with a character of 'GET ') that is new or has the wanted port and type, since
-- EditMonitor sends no port and BIG-IP keeps a monitor under its type; and a virtual server that it
-- reads back that is new or has the wanted pool, since GetVIP does not read it. The other providers
-- do not obey the laws on monitors and virtual servers: HAProxy's GetMonitor returns an empty
-- monitor to force an update, the Netscaler's monitors change their type, and the dummy provider
-- keeps nothing. Haproxy.Transaction.Staged says that of the data plane's calls only a commit that
-- succeeds changes the running configuration: a write that names no version, as all of the
-- provider's, is staged in its transaction or refused. Haproxy.Book.Book says that it keeps the
-- servers of a backend under their names, and refuses a name that is there.
-- Providers.F5.Servers.ServerLaws says that BIG-IP keeps virtual servers as they are sent. Nothing
-- else is claimed of the vendors' products.
-- A vendor's client, net/url, %+v and strconv.Quote are fields of the client's record. The session of
-- a client is open: the operator calls Connect first.
--
-- ToLower is modelled over ASCII. A data plane's answer is a body or none: an answer of HAProxy whose
-- payload is nil is read as one without a pool or a frontend. int(float64) of the Netscaler provider
-- is the identity.
-- Go's int is an integer without bound: ports and counts are not computed with. A string is a text.
-- A range over a map takes the order of its association list, in which no key stands twice. A loop
-- is a recursion over its list. Only the printing of a number in Base/Decimal runs on fuel, the number
-- itself and one, and each of its rounds divides the number by ten.
--
-- Not modelled: generated deep copies, spans, logging, the values of the gauges, the vendors' HTTP
-- clients, the test helpers, and the registration of the API's types beyond the calls of init in
-- cmd/main.go.
pub mod Base
pub mod Api
pub mod Backend
pub mod Labels
pub mod Nodes
pub mod Registry
pub mod Reconcile
pub mod Watch
pub mod Startup
pub mod Providers
pub mod Examples
