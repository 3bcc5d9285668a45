-- ===== src/Lib.antt =====
-- awgsocks: a loopback-only SOCKS5 front end (internal/socks5) whose only egress is an AmneziaWG
-- tunnel in user space (internal/awg), with a strict configuration reader (internal/config), a cache
-- for the names that it looks up in the tunnel (internal/dns), a log (internal/logging) and a
-- Windows service around them (internal/service). A client greets the server, asks for a target, and
-- is either connected through the tunnel's dialer, or given a UDP relay, or told a failure code;
-- there is no other way out.
--
-- Which file models what:
--   Base, Netip, Strings   shared helpers; what the program uses of Go's net/netip and strings.
--   Socks5.Target          internal/socks5/server.go: constants, `destination`; the RFC's targets.
--   Socks5.Datagram        internal/socks5/udp.go: `parseUDPHeader`, `buildUDPHeader`.
--   Socks5.Session         internal/socks5/server.go: `negotiate`, `readRequest`, `writeReply`. A
--                          connection is the bytes that the client will send and those written to it.
--   Socks5.Failure         internal/socks5/errors.go: `replyForError`. An error is what `errors.Is`
--                          answers for each sentinel, and its text.
--   Socks5.Connect         internal/socks5/server.go: `connect`, over a dialer that is a parameter, with
--                          a trace of each use of it.
--   Socks5.Relay           internal/socks5/udp.go: the relay, one step for each datagram, tick and call
--                          of `Close`; `acceptFrom`, `resolve`, `tunnelConn`, `forward`.
--   Socks5.Handle          internal/socks5/server.go, udp.go: `handle` and `handleUDPAssociate`.
--   Socks5.Listener        internal/socks5/server.go: `Start`, `Stop`, `acceptLoop`.
--   Dns                    internal/dns/resolver.go: `Lookup` in its two critical sections,
--                          `limitedLookup`, `evictLocked`, `Flush`.
--   Config.Scan            internal/config/tunnel.go: `scanConfig`; params.go: `normalizeKey`.
--   Config.Params          internal/config/params.go: the tables of the parameters.
--   Config.Values          internal/config/tunnel.go: `ParseUintRange`, `ParseAWGBool`.
--   Config.Checks          internal/config/tunnel.go: `validateCIDRList`, `validateDNSList`,
--                          `validateEndpoint`, `validateBase64Key`.
--   Config.Semantics       internal/config/tunnel.go: `validateInterfaceSemantics`.
--   Config.Validate        internal/config/tunnel.go: `validateScan`, `validateValue`.
--   Config.Mtu             internal/config/tunnel.go: `SafeMTU`, the MTU's choice in `ParseTunnel`.
--   Config.Finalize        internal/config/tunnel.go: `finalize`, `AddressOfFamily`, `HasFamily`.
--   Config.App             internal/config/app.go: `Normalize`, `ValidateLoopbackListen`, the defaults.
--   Config.Parse           internal/config/tunnel.go: `perPacketOverhead`, the end of `ParseTunnel`.
--   Awg.State              internal/awg/tunnel.go: the state, `Start` and `Stop` in their locked parts,
--                          `buildDevice`, `toUAPI`; dryrun.go: `DryRun`.
--   Awg.Stats              internal/awg/stats.go: `parseUAPIGet`.
--   Awg.Dial               internal/awg/tunnel.go: `WaitReady`, `DialTCP`, `ListenUDP`, `LookupHost`.
--   Awg.Lookup             internal/awg/tunnel.go: `lookupUncached`, `retryDecision`;
--                          internal/localdns/localdns.go: `Lookup`.
--   Awg.Supervise          internal/awg/tunnel.go: `supervise`, `performReconnect`.
--   Awg.Reload             internal/awg/tunnel.go: `Reload`, `stackEqual`.
--   Service.Conflict       internal/service/conflict.go.
--   Service.Manager        internal/service/manager.go: the state, the attempts to start the tunnel, their
--                          retry, and the pause for another client.
--   Service.Control        internal/service/manager.go: `Start`, `Stop`, `StartTunnel`, `StopTunnel`,
--                          `Reconnect`, `networkSettled`, `OnPowerResume`.
--   Service.Reload         internal/service/manager.go: `Reload`.
--   Service.Steps          internal/service/manager.go: every order of the manager's locked parts.
--   Ipc                    internal/ipc/server_windows.go: `dispatch`.
--   Awg.Netstack           internal/awg/netstack.go: the queue between the network stack and the device.
--   Logging                internal/logging: `Redact`, `RedactUAPI`, the logger and its rotation.
--   Setup                  internal/service/control_windows.go: `Install`, `RepairPermissions`, `Uninstall`,
--                          `StartService`, `StopService`, `QueryState`.
--   Tests                  the theorems at concrete inputs.
-- A Go method is a function from the state to the new state and its result; a call of the world (dial,
-- lookup, socket, clock) is an argument with its answer. Goroutines are interleavings of steps: the
-- relations `Step` and `Reach` let the steps come in any order.
--
-- Numbers: `uint64` counters wrap at 2^64. The `int64` counters of the SOCKS5 server and the `uint64`
-- counters of the cache count single events up from 0 and are not wrapped. Time is in nanoseconds.
-- No function takes fuel: a loop is over a list, or runs as often as the code says (the copies of
-- Setup.Install).
--
-- Parameters: `netip.ParseAddr` and `netip.ParsePrefix`, the base64 decoder, the Unicode tables beyond
-- ASCII, what the sockets answer, what the AmneziaWG device, its network stack and its configuration
-- writer answer, the addresses of the adapters, and what the calls of Windows and of the file system
-- answer. A deadline that runs out is the end of a connection's input. A dialer is a record of answers; the tunnel fills it (Awg.Dial).
--
-- Simplified: the texts of the tunnel's errors leave out addresses, hosts and numbers, and what the
-- other parts send to the log is left out. A wait has a context that ends. The parts
-- of the tunnel (a tick of `supervise`, `Reload`, a dial) are run by themselves, and no theorem is about
-- how their calls interleave. The accept loop's calls for a connection that it accepts are one step;
-- the deferred calls at the end of a session are three. Service.Steps takes a reload of the tunnel for a step that leaves it up or
-- down, which is not so for one that rebuilds the stack while other callers are at work.
--
-- Not modelled: the rest of `ParseTunnel`, which hands the text to the upstream parser,
-- internal/awg/bind.go, `Save` of the application configuration, the manager's `Status`, the texts of its
-- report, the named pipe and its messages, the formatting of messages for the log, the handler of service
-- control requests, what is printed, the calls of internal/winsys and the command line; `io.Copy` enters
-- a session only by the number of bytes it moved, and `tunnelConn` is one step although it lets go of its lock between its two parts.
mod Base
pub mod Netip
pub mod Strings
pub mod Socks5
pub mod Dns
pub mod Config
pub mod Awg
pub mod Service
pub mod Ipc
pub mod Logging
pub mod Setup
mod Tests
