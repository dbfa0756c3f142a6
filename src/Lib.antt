-- ===== src/Lib.antt =====
-- auto-tunnel keeps local listeners that forward to the ports of a remote host over one SSH
-- connection. This library models the program's core and proves what its parts promise.
--
-- The parts. A poll of the engine (engine.go) merges what Docker discovery, the host's own listeners
-- and the declared forwards report into one set of candidates, overrides each with the user's choice,
-- and hands the set to the tunnel manager (internal/tunnel/manager.go), which makes the live listeners
-- equal to it: what is gone or has moved is stopped, and what is new is bound to a port that the
-- allocator (internal/tunnel/portalloc.go) finds. The SSH connection
-- (internal/sshconn/keepalive.go, dial.go) is dialled again whenever it drops. The dashboard
-- (internal/ui/model.go, view.go) shows snapshots (internal/state/snapshot.go) and turns keys into
-- requests to the engine.
--
-- The files.
--   Prelude: names of the libraries, passed on; lists measured by native numbers, 64-bit integers,
--     results with errors, and sorting.
--   Text: Go strings as lists of bytes, with what the program uses of strings, bytes and strconv.
--     Text/Equality compares, Text/Digits cuts, Text/Decimal is Itoa and Atoi.
--   GoMap: a Go map as a list of pairs, with the laws of its operations.
--   Sanitize: internal/sanitize/sanitize.go, with Go's decoding and encoding of UTF-8. Sanitize/Runes
--     and Written are about UTF-8, Sanitize/Clean about the result.
--   State: internal/state/snapshot.go (Tunnel, Counts).
--   Discovery: internal/discovery. Types is types.go (PortMap, Key), Ports/Match the two regular
--     expressions of ports.go, Ports/Expand its expandRange, Ports/Parse its ParsePorts, Static is
--     static.go (ParseForward, ParseForwards), Docker is docker.go (Docker/Pass has discover, which is Discover) and Host is
--     hostports.go (parse_listeners is ParseListeners, discover_host is Discover).
--   Dial: internal/sshconn/dial.go. Dial/Target is ResolveTarget, Dial/HostKey the check of a host key
--     and the advice that it gives, Dial/Keys is loadPrivateKey, and Dial/Connect is Dial with the
--     configuration of the client. Dial/HostKey/Advice proves.
--   Tunnel: internal/tunnel. Allocator is portalloc.go (listen is Listen), Forwarder the state of a
--     forwarder.go, Connections its acceptLoop and handle, Sockets its sockets and stop, Probing its probe, Manager is manager.go: reconcile is Reconcile, whose loops are drop_gone, visit_all
--     and stop_all, and visit is one round of the loop over the desired rows. Manager/Settled, Moved,
--     Growth, Ports and Single prove, and Allocator/Order.
--   Probe: internal/probe/probe.go (detect is Detect).
--   Engine: engine.go. poll is poll, with poll_docker, poll_host, drop_docker_published, dedupe_keys and
--     apply_selection; set_enabled, set_enabled_all, reapply and toggle_pause_key are what the dashboard
--     calls. Engine/Merge, Choice, Several, Poll, History and Valid prove. Engine/Files names and reads the
--     files that outlive a run, Engine/Start is newEngine, loadSelection and snapshot, Engine/Life is run as long as its context lives,
--     and Engine/Interleave lets reconcile and reapply run at once.
--   Conn: internal/sshconn/keepalive.go. step is Run and monitor up to their next wait, by event; Conn/Run
--     and Conn/Ready prove.
--   Sshtest: internal/sshtest/server.go, the server of the tests (handle_session is handleSession).
--     Sshtest/Served proves.
--   Logbuf: internal/logbuf/logbuf.go (Buffer), with Logbuf/Handler.
--   Ui: internal/ui/model.go, with Ui/Update: update is Update, press is handleKey, filter_key is
--     handleFilterKey; Ui/Rows, Keys, Order and Table prove. Ui/View and Ui/View/Draw are internal/ui/view.go (Ui.View.Draw.view is View).
--   Command: main.go. check_flags and peel are parseFlags, Command/Report is render, Command/Program is
--     run and main, Command/Dashboard is runTUI and Command/Plain is runPlain. Remote is
--     internal/sshconn/exec.go, and Browser is internal/openurl/openurl.go.
--   Tests: runs on small inputs, and the theorems at such inputs.
--
-- How it is modelled. State is passed on explicitly, as records. An int is an integer whose 64-bit wrap
-- is written out where the code can reach it (expandRange); counters of bytes and connections are
-- natural numbers. Strings are bytes, and white space is ASCII's. The data that error messages and
-- warnings are formatted from stand for the messages in Discovery; elsewhere messages are bytes. The
-- order in which Go visits a map is an argument, and sort.Slice is a stable sort. What the machine knows
-- of ports is a state: busy ports of other programs and open ports of this one. Answers of remote
-- commands and of SSH are inputs, and the file of remembered choices is a field of the engine.
-- Recursion is structural, on lists and on a count of rounds that the code computes first; the rounds of
-- a loop that does not end are no count, and the call is never_returns. Dial, which calls itself for a
-- jump host, runs on fuel, and two calls are enough; so does the loop of parseFlags, and more rounds than
-- words are enough. The goroutines of a forwarder's connections move
-- in any order, as steps of a relation, and so do those of the probes and of runTUI, and the poll loop and
-- the dashboard's choices in Engine/Interleave, where a step is what runs under one lock. Elsewhere, in
-- Engine/Life too, the engine's operations run one after the other. What main and Detect do outside the
-- program is a list of effects or events, in order.
--
-- Not modelled: what the engine is asked, or polls, after the context of run has ended; the panic at
-- a choice where the map of choices is nil, of which only Engine/Start tells; the network, the
-- terminal and the file system, whose answers are parameters or inputs; times of day; the copied
-- bytes themselves, of which the counts are modelled; the texts that the library of the log formats;
-- and the keys, files and agent that the test server makes.
pub mod Prelude
pub mod Text
pub mod GoMap
pub mod Sanitize
pub mod State
pub mod Dial
pub mod Discovery
pub mod Tunnel
pub mod Engine
pub mod Conn
pub mod Logbuf
pub mod Probe
pub mod Command
pub mod Remote
pub mod Browser
pub mod Sshtest
pub mod Ui
pub mod Tests
