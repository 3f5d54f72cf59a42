-- ===== src/Lib.antt =====
-- proxysim, a local HTTP and HTTPS intercepting proxy for the iOS Simulator: a model of its core and
-- the theorems about it. The program is in Go; paths are from the repository's root.
--
-- The parts, and the files that model them:
-- * internal/proxy. Proxy/Server.antt has the server's options, `originAllows` and `forward` of
--   server.go, Proxy/Headers.antt `removeHopByHop`, Proxy/Capture.antt `captureReader`, and
--   Proxy/Connect.antt `ServeHTTP` and the CONNECT path of connect.go, with its adapters of a
--   connection in Proxy/Connect/Adapters.antt. `Server` holds what New and the options fix; `World` holds
--   what connections change: the sink's flows, the counter of internal/flow/flow.go, the learned
--   hosts, and the controller that the UI shares with the proxy. What a handler does to a
--   connection is a list of actions. The transport, the clock, the client and the upstream are
--   arguments (`Env`, `Peer`). Proxy/Programs.antt has the same handlers as
--   programs of atomic accesses to the world, and a schedule that interleaves them.
-- * internal/flow. Flow.antt has the record, the counter (a uint64 with its wrap-around) and
--   `MultiSink`; Flow/Async.antt `AsyncSink` of async.go; Flow/Decode.antt `Decode` of decode.go. The
--   decompressors are an argument (`Codecs`). Flow/Console.antt has `ConsoleSink` of console.go, whose
--   writers append to a text, and Flow/Console/Size.antt `humanBytes`, with the rounding of float64
--   and `%.1f` written out; a panic is an Option, and the printing of durations and JSON arguments.
--   Flow/Fields.antt has the field set of internal/flow/flowtest/flowtest.go.
-- * internal/origin. Origin.antt has the filter, its controller, the classification of a path and the
--   memoised bundle ids of origin.go; Origin/Resolve.antt the search for the owner of a socket of
--   origin_darwin.go over the answers of libproc (`System`), and Origin/Libproc.antt the buffers and
--   calls that these answers come from (`Libproc`). The output of plutil is an argument.
-- * internal/ui. Ui.antt has the hub of hub.go: the ring, the browsers' queues and the event loop;
--   Ui/Detail.antt the view of one flow of detail.go; Ui/Control.antt the live filter;
--   Ui/Enumerate.antt the listings of simulators and apps. Ui/Live.antt has the hub with its goroutines
--   interleaved: each critical section, send, receive and write is an act. Ui/Shown.antt puts the
--   proxy's programs, the hub and the detail view together. JSON encoding is an argument.
-- * internal/sysproxy. Sysproxy.antt has the commands, the snapshot file and the error values of
--   sysproxy.go, Sysproxy/Parse.antt what it reads from reports, Sysproxy/Takeover.antt Apply, Recover
--   and the restore function. What a command does is an argument, and `Documented` in
--   Sysproxy/Restore.antt what networksetup promises of it; `Mac` lists the states after every
--   action, where a crash may hit.
-- * internal/ca. Ca.antt has the cache of leaf.go: a call of `Leaf` is two critical sections with the
--   minting between them, and a schedule says which call goes next. Ca/Leaf.antt mints a leaf, and
--   gives one to a handshake. Ca/Load.antt has `Load` of authority.go over the directory of
--   Ca/Files.antt: the two files with their modes, the faults of each call, and what the directory
--   was after every action, where a crash may hit. Ca/Certificate.antt has the templates and the
--   reading of PEM; packages rsa, x509 and pem are arguments (`Crypto`, `Signer`). Ca/Fingerprint.antt
--   has the fingerprint; SHA-256 is an argument.
-- * internal/sim. Sim.antt has the booted simulators and `InstallRootCert` of trust.go, Sim/Apps.antt
--   the installed apps of apps.go. A command, the reading of JSON and the temporary file are
--   arguments; `Bench` lists the commands that were run.
-- * main.go. Main.antt has the flags, the options of the proxy, the takeover with its deferred
--   restore, `run` up to its exit and the one action of -trust, over the machine, the directory and
--   the simulators (`Host`); what it meets outside is an argument (`Outside`). Main/Flags.antt has
--   `main` behind the parsing of the flags, and the banner.
-- * What Go's library gives to these is in Strings.antt (package strings), Strings/HostPort.antt
--   (`net.SplitHostPort`), Strings/Decimal.antt and Strings/Signed.antt (strconv) and Http.antt
--   (`http.Header`). A string is a list of bytes; white space and letter case are those of ASCII.
-- * Prelude.antt passes on the shared names; Examples.antt has the runs and the theorems at inputs.
--
-- The parts meet in four places: the proxy's `emit` appends a flow to the sink, whose consumer is
-- the hub; the hub's `handleSetFilter` writes the controller that `originAllows` reads; the
-- detail view decodes what the capture reader kept; and main.go puts the loading, the simulators, the
-- takeover and the proxy together.
--
-- Bounds: an exchange with the proxy and an operation of the hub are each one step in
-- Proxy/Server.antt, Proxy/Connect.antt and Ui.antt. In Proxy/Programs.antt, Ui/Live.antt,
-- Flow/Async.antt and Ca.antt goroutines are interleaved at every access to the state of the
-- file; the memoised bundle ids of Origin.antt are not interleaved. The counters of flow ids and of
-- lost events are uint64s with their wrap-around; byte counts and caps are natural numbers, and a
-- capture's cap is not negative. Printing a decimal number has fuel for 20 digits, which suffice for
-- a uint64, and the drainer of `AsyncSink` returns within the steps that `close_drains` names. The loop of `humanBytes` has fuel for six rounds, which
-- suffice for an int, and rounding to float64 for ten doublings, as an int has ten bits more
-- than a float64's 53. Times are seconds, and lengths in Go are below 2^63.
--
-- Not modelled: the parsing of flags, the hints and error messages that main.go prints,
-- the pattern matching of the hub's mux, a signal that comes before run waits for signals,
-- the files of the browser's page, the listeners, and the embedding of files.
pub mod Prelude
pub mod Strings
pub mod Origin
pub mod Http
pub mod Flow
pub mod Proxy
pub mod Ui
pub mod Sysproxy
pub mod Ca
pub mod Sim
pub mod Main
mod Examples
