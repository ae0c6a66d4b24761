-- ===== src/Lib.antt =====
-- A verification library for nssh, a reverse tunnel over SSH with a UDP data plane and a daemon.
--
-- How the program works: a client connects to an SSH server and asks it to listen on a remote port;
-- what arrives there is forwarded to a local service. UDP is carried in frames over SSH channels or
-- QUIC datagrams: setupUDPForward negotiates, writeDatagram splits a datagram of the local service
-- into frames, and the readers put fragments together and hand datagrams to one socket per flow.
--
-- Files, and what they model:
--   Base            lists, maps as association lists, integers and Boolean tests
--   Wire            encoding/binary and io.ReadFull, over lists of bytes
--   Udp/Frame       base_tunnel/udp_proxy.go and udp_datagram.go: the frame codecs
--   Udp/Reassembler base_tunnel/udp_proxy.go: udpReassembler, add, sweep
--   Udp/Link        the channels, datagrams and sockets that the proxy uses, as a record
--   Udp/Proxy       base_tunnel/udp_proxy.go: udpProxy and the choices that depend on it alone
--   Udp/Send        base_tunnel/udp_proxy.go: writeDatagram and what it calls
--   Udp/Flows       base_tunnel/udp_proxy.go: the flow table, its timeouts and keepalives
--   Udp/Receive     base_tunnel/udp_proxy.go and udp_datagram.go: one round of each reader
--   Udp/Session     base_tunnel/udp_proxy.go: setupUDPForward and the start of runUDPProxy
--   Udp/Channel     base_tunnel/udp_proxy.go: readChannel, and the steps of all goroutines of a proxy
--   Config          base_core/config.go, base_tunnel/transport.go: Config, the normalisations, LoadConfig
--   Cli             main.go: the configuration from the arguments, and that of a takeover
--   Client          main.go: asking the daemon, printing the answer
--   Client/Restart  main.go: restartAllProcesses
--   Client/Stop     main.go: stopDaemon, daemonPID, waitDaemonGone
--   Client/Takeover main.go and daemon/daemon.go: the client of a takeover, and the export it reads
--   Client/Foreground main.go: runClient
--   Client/Listing  main.go: printProcessList
--   Client/Background main.go: startDaemonBackground, the start with --daemon, sendGetCommand
--   Client/Probe    base_core/daemon_check.go, daemon_check_unix.go: the paths, and whether the daemon runs
--   Cli/Modes       main.go: what main does with its flags
--   Socket          daemon/transport_common.go, daemon/transport_unix.go: both sides of the Unix socket
--   Socket/Start    daemon/transport_unix.go: StartServer, call by call
--   Socket/Served   the socket around the dispatcher of the daemon
--   Socket/Started  a start on its way from main.go through the socket to startWorker
--   Log             base_core/logger.go: levels, and the pushes to Loki
--   Bytes           base_core/utils.go: FormatBytes
--   Stats           base_core/stats.go: the counters and the status
--   Compress        base_tunnel/compress.go: the frames of compressed channels
--   Transport       base_tunnel/transport.go: dialTransport and its cache
--   Transport/Quic  base_tunnel/transport.go: dialQUICTransport and Close of its stream
--   Tunnel          base_tunnel/tunnel.go: parseUDPPingReply and the heartbeat of ConnectAndTunnel
--   Tunnel/Requests base_tunnel/tunnel.go, compress.go: the requests, each with its time-out
--   Tunnel/Connect  base_tunnel/tunnel.go: ConnectAndTunnel, in stages, and its loop
--   Tunnel/Origin   base_tunnel/tunnel.go: the originator of a forwarded channel
--   Tunnel/Accept   base_tunnel/tunnel.go: what setupTCPForward does with one channel
--   Tunnel/Handler  base_tunnel/handler.go: the copies of one channel, and its end
--   DataPlane       base_tunnel/data_plane.go: the frames of its control channel, run, openDataStream
--   Daemon/Worker   daemon/worker.go and daemon/daemon.go: WorkerInfo and the key of a worker
--   Daemon/Params   main.go and daemon/daemon.go: the parameters of CMD_START, validateConfig
--   Daemon/Target   daemon/daemon.go: parseTargetSpec
--   Daemon/State    daemon/daemon.go: the daemon's table, startWorker, stopWorker
--   Daemon/Select   daemon/daemon.go: handleProcessAction, handleAllProcessesAction, performAction
--   Daemon/Commands daemon/daemon.go: start, stop all, register, list and take over
--   Daemon/Show     daemon/daemon.go: "get command"
--   Daemon/Dispatch daemon/daemon.go: handleTransportCommand, the round of Run over the table, and the
--                   steps that change the daemon
--   Daemon/Supervisor daemon/daemon.go: one worker in one tick of Run, CheckWorkerLifetime
--   Daemon/Monitor  daemon/system_info.go, daemon/daemon.go: what the daemon reports of itself
--   Daemon/Backoff  daemon/daemon.go: bindRejectBackoff and the bookkeeping of runWorker
--
-- In daemon mode a background process keeps one goroutine per tunnel in a table of workers. Commands
-- from the CLI select workers by a target such as user@host:port:remote_port and start, stop or
-- restart them; the supervisor starts again what has gone silent; a worker whose port is refused
-- waits longer and longer. The goroutines of runWorker are numbered, and the model lists the numbers
-- whose context has been cancelled.
--
-- State is passed explicitly. A byte is a number below 256, an unsigned integer of w bits a number
-- reduced modulo 2 ^ w where the source converts to it, a time a number of nanoseconds, read once
-- in an operation and given to it as an argument. Network, sockets and the ssh and quic-go libraries
-- stand behind records of functions (Link, Client, Network, Outside, SshClient, Sink, Plane, Env, World, Coding,
-- Stdlib)
-- over an arbitrary state, so that the theorems hold for every behaviour of theirs. Most loops are
-- structural: over lists, or over the number of rounds that the source's counting loops make; an endless
-- loop is a list of what its rounds meet. The loops that read a stream or write until all is written run
-- on fuel: writeFull and Write on the number of bytes, readChannel and the loop of the data plane on any
-- number above that of the bytes that are still to come, FormatBytes on six rounds, which an int64 never
-- exceeds, waitDaemonGone on the number of its intervals and one more; each has a lemma that this is enough.
--
-- Concurrency: each function is what one goroutine does between two waits. Udp/Channel/Steps,
-- Daemon/Dispatch/Steps, Tunnel/Handler, Socket/Start and Log/Limits list these as the steps of a relation,
-- and what is proved of Reach holds for every order of them. handleStopAll, which is one function here,
-- sends two closures on cmdChan; Daemon/Dispatch/Steps has its steps one by one.
--
-- Not modelled: the output of lines, the requests to Loki, named pipes and what else is made for Windows,
-- the reading of the system, signals, socket options, the creation of a process: they are input and
-- output, or calls of libraries.
pub mod Base
pub mod Wire
pub mod Bytes
pub mod Cli
pub mod Client
pub mod Compress
pub mod Config
pub mod Daemon
pub mod DataPlane
pub mod Log
pub mod Socket
pub mod Stats
pub mod Transport
pub mod Tunnel
pub mod Udp
