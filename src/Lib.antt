-- ===== src/Lib.antt =====
-- eUPF: a 5G user plane function. The control plane (an SMF) drives it by PFCP; the UPF keeps
-- associations with its peers, a session for each subscriber, and writes the sessions' rules into
-- eBPF maps, from which an XDP program forwards packets.
--
-- cmd/core receives PFCP messages, keeps associations and sessions, and turns rule IEs into calls
-- of the ForwardingPlaneController; cmd/core/service hands out UE addresses and tunnel ids; cmd/ebpf
-- implements the controller over kernel maps, with pools of ids for FARs, QERs and URRs.
--
-- Base       shared names: Tests (Boolean tests, map keys), Lists, Table (a Go map as an
--            association list; Total: sums over its entries; Entries: what holds of all of them),
--            MapOrder (the order of `range` over a map, which Go leaves open, is a parameter, and
--            every range has one of its own),
--            Outcome (a value, an error or a panic; state that stays changed on failure; Fixes:
--            what a computation leaves alone; Safe: computations that do not panic; Yields: what a
--            call gives when it succeeds; Errs: computations that end in an error), Text (characters,
--            strconv.ParseUint; Digits, Split: decimal numbers and separators, written and read).
-- Ebpf       Types and Pdr: the structs of cmd/ebpf/pdr.go and how PutPdrUplink and its kin lay a
--            PDR out (pdr_to_store is the shared branch of the six Put and Update methods; Combine
--            says what the stored entry means to the XDP program). Controller: the Go interface.
--            IdTracker, Objects: IdTracker and BpfObjects of cmd/ebpf/objects.go; bpf_controller is
--            the controller they make. Kernel: the eBPF maps and the roaring bitmap, which are
--            parameters with their documented laws. Objects/Far sees the FAR map as slots,
--            Objects/FarPool its pool. Load: the loading and resizing of the maps. Stats:
--            cmd/ebpf/stats.go.
-- Service    ResourceManager: IPAM and FTEIDM of cmd/core/service/resource_manager.go; IpCopies,
--            TeidCopies and Teids hold what is proved of them.
-- Core       Session: cmd/core/session.go. Ie: an information element as the answers of the go-pfcp
--            accessors. Rules: composeFarInfo, updateQer, updateUrr (Crashes: on which FARs the
--            first crashes). ParseIp, Sdf: cmd/core/sdf_filter_parser.go with the parts of package
--            net that it calls (Sdf/Matches and Sdf/Bounds: what comes of a flow description; Flow,
--            Words, Hosts, RoundTrip: flow descriptions printed and read back). Work: the state of
--            one request. PdrContext: cmd/core/pdr_creation_context.go and applyPDR (Choose and
--            Skips: its TEID cache; Seid: the local SEID stays; Returns: when it can
--            crash). Connection: the state of cmd/core/pfcp_connection.go and node_association.go.
--            Heartbeat: ScheduleHeartbeat, with what its select takes up as input; Channels: with
--            the receive loop, as interleaved steps over the two unbuffered channels. Requests: the
--            requests that the UPF sends itself. GtpPaths: the GTP path manager. Metrics: the
--            collectors and GatherMetrics, with float64 rounded as Go does and the counters of the
--            Prometheus client as a parameter. Display: the messages of display_utils.go on session
--            requests, as lines (Sources: when putting one together crashes). Handlers: Apply (the
--            rule loops of the handlers; Ledger and FarSteps: where the kernel's FAR ids are while
--            FAR IEs are applied; Returns: when creating the rules ends), Establishment,
--            Modification, Deletion, Association, Teardown (DeleteSession, DeleteAssociation),
--            Dispatch (the handler map and the loop Run as steps on events, with the relation
--            Reaches); Effects: what each does to the sessions of all peers, to GetSessionCount
--            (Counts) and to UE addresses (Leases), what the answers say (Answered, Failed), when
--            printing a request crashes (Crashed) and which requests are answered (Replies), and
--            that DeleteAssociation returns (Returns). Invariant: the connection's invariant.
-- Rest       the handlers of cmd/api/rest: Tables (the FAR and QER maps), Sessions (listings and
--            searches), Display (statistics and configuration).
-- Config     UpfConfig and Validate of cmd/config/config.go.
-- Startup    cmd/main.go up to its goroutines; Capacity: the pools that it has set up then.
-- Tests      concrete libraries, a connection with a peer and a session, and runs.
--
-- A method on a pointer returns the changed value. Integers are naturals with the wrap-around
-- written out where the code can reach it: local SEIDs modulo 2^64, TEIDs, sequence numbers and bit
-- rates modulo 2^32, volumes modulo 2^64. Nil dereferences and indices out of range are the outcome
-- `panic`. A handler is one step: the loop handles one message at a time, and the mutexes guard
-- single calls. Only the loop of NewResourceManager runs on fuel, whose need is a theorem; all other
-- loops are structural.
--
-- Not modelled: sockets, timers and logging, the text that fmt makes of a value, the messages
-- printed for associations and deletions, message encoding (go-pfcp), flags and viper, the
-- validator, gin's routes and the HTTP servers, the uplink PDR handlers of the REST interface,
-- which read kernel memory through a Go struct of another layout, ListMapProgArrayContents, and the
-- XDP program.
pub mod Base
pub mod Config
pub mod Core
pub mod Ebpf
pub mod Rest
pub mod Service
pub mod Startup
pub mod Tests
