-- ===== src/Lib.antt =====
-- go-proxmox: a model of the client library's core and the theorems about it.
--
-- The library talks to a Proxmox VE server over HTTP. Its parts, and where they are modelled:
--   * proxmox.go, access.go: `Client`, `Req` with its helpers, and the session behind it. `Req`
--     sends a request with the headers of the client's token or session; a 401 or 403 makes it
--     create a session (`CreateSession`, `RefreshTicket`, `Ticket`) and send the request again.
--     Client.antt has the state and the actions on it, Client/Response.antt `handleResponse`,
--     Session.antt the parts of `Req` and of the login, and Session/Req.antt their recursion.
--     Session/Steps.antt and Session/Bound.antt prove how it ends, Session/Otp.antt what a login
--     spends.
--   * proxmox.go, shape.go: the errors, StatusError and errors.Is. Errors.antt,
--     Errors/Chain.antt; Errors/Decimal.antt has `%d` and strconv.Atoi; Json.antt has shape.go's
--     checked reads.
--   * retry.go: Retry.antt has the policy and the backoff, Retry/RoundTrip.antt the loop.
--   * tasks.go: Tasks.antt has UPIDs, `Ping` and `Wait`, Tasks/Complete.antt
--     `WaitForCompleteStatus`; Tasks/Upid.antt, Tasks/Exit.antt, Tasks/Ping.antt, Tasks/Wait.antt
--     and Tasks/Complete/Reported.antt prove what they promise; Tasks/Log.antt has types.go's
--     `Log`, Tasks/Watch.antt `Watch`, and Tasks/Watch/Lines.antt and its child say what it
--     sends.
--   * virtual_machine.go: Vm.antt has the tags, with the slice that `RemoveTag` changes while it
--     ranges over it (Vm/Tags.antt, Vm/Remove.antt, Vm/Untag.antt), Vm/Power.antt the power
--     states and calls, and Vm/CloudInit.antt the deletion of a machine with its cloud-init ISO
--     (Vm/CloudInit/Words.antt, Cleared.antt, Found.antt, Loop.antt, Safe.antt).
--   * types.go, virtual_machine_config.go: Devices.antt has the indexed devices of a
--     configuration ("net0", "scsi3") and `MergeDisks` (Devices/Key.antt, Place.antt, Routes.antt,
--     Disks.antt).
--   * types.go: Csv.antt has `CSV`, whose round trip is in Csv/RoundTrip.antt, and `IntOrBool`.
--   * containers.go: Containers.antt has the tags (Containers/Tags.antt, with Vm/TagSet.antt);
--     Containers/Calls.antt, Snapshots.antt and Clone.antt have the other calls, and
--     Containers/Scope.antt and Within.antt say where their requests go, by Session/Sent.antt and
--     its children, which say which requests `Req` makes.
--   * virtual_machine.go's guest agent: Agent.antt has the waits, whose timers and `select` are
--     the actions of Agent/Poll.antt's theorem, Agent/Wait.antt is about WaitForAgent, and
--     Agent/Exec.antt has the other calls.
--   * types.go's FirewallRule, with the calls of containers.go that make one: Firewall.antt;
--     where a rule's calls go is in Firewall/Place.antt.
--   * cluster_firewall.go and the other firewall calls of containers.go and virtual_machine.go:
--     Cluster/Firewall.antt, Containers/Firewall.antt and Vm/Firewall.antt, with the queries of
--     Firewall/Params.antt; Firewall/Sets.antt and Sets/Alike.antt compare the three.
--   * options.go: Options.antt has the options that set a field of the client;
--     Options/Transport.antt has the heap of HTTP clients, transports and TLS configurations that
--     `finalizeOptions` changes, and Options/Transport/Owned.antt and its children prove what it
--     leaves alone.
--   * types.go's Cluster, cluster_options.go: Cluster.antt decodes a cluster's status
--     (Cluster/Status.antt, Cluster/Status/Decoded.antt), Cluster/Options.antt its options.
--   * cluster_mapping.go, cluster_notifications.go, cluster_metrics.go: Cluster/Named.antt has
--     what the calls on named entries share, its children Mapping, Notifications and Metrics the
--     calls, and Families.antt and Families/Kept.antt what they send.
--   * proxmox.go's `UploadReader`, storage.go's uploads and downloads: Upload.antt, and
--     Upload/Sends.antt about what an upload sends.
--   * virtual_machine_agent.go: Agent/Commands.antt. pools.go: Pools.antt. cluster.go's other
--     calls: Cluster/Calls.antt. storage.go's volumes, storages and backups: Volumes.antt.
--     nodes.go: Nodes.antt and Nodes/Services.antt; Nodes/Config.antt is about a backup's
--     configuration.
--   * access.go and virtual_machine.go: Access.antt and Vm/Disks.antt have further calls over
--     `Req`.
-- Prelude.antt and its children hold the shared types: strings are lists of bytes, Go's maps are
-- association lists, and its integers are ℕ or ℤ with their wrap-around written out where an operation
-- may leave the range, as in the seconds of a wait, which `time.Duration` counts in nanoseconds.
--
-- The network, the clock and the timers are an environment (World.antt) that answers from the
-- history of what the client did. encoding/json, http.StatusText, strconv.Quote, http.ParseTime
-- and github.com/jinzhu/copier are parameters, and so are net/url's encoding,
-- (*http.Transport).Clone and the ticks of a time.Ticker. So are the multipart writer, the files,
-- and the order of Go's range over a log and over the fields of a form. Ids and the positions of firewall rules are taken to be
-- below 2^63. `Req` recurs on fuel, of which two levels are enough where no login is accepted with
-- null for a session; `Wait` takes the number of rounds it may make, and one more than fit in its
-- time is enough; `WaitForAgent` takes the rounds that reach the time when the agent is up,
-- `Watch` those that reach the time when the task has ended, and `WaitForCompleteStatus` more
-- than its number of times. An action without fuel has no outcome, and the theorems on it say
-- that it has one.
--
-- Not modelled: logging, the mutex (nothing runs beside anything else; the goroutine of `Watch`
-- is followed to its end), web sockets, the writing of the cloud-init ISO, JSON numbers that a
-- float64 does not hold exactly, the number types that go through float64, and the calls of the
-- other API sections, which are a path and a type over `Req`.
pub mod Prelude
pub mod Errors
pub mod Json
pub mod World
pub mod Client
pub mod Session
pub mod Retry
pub mod Tasks
pub mod Vm
pub mod Access
pub mod Options
pub mod Devices
pub mod Containers
pub mod Agent
pub mod Csv
pub mod Firewall
pub mod Cluster
pub mod Upload
pub mod Volumes
pub mod Nodes
pub mod Pools
