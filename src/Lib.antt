-- ===== src/Lib.antt =====
-- network_listener: passive bandwidth estimation from captured packets.
--
-- The program captures frames, parses them, follows every transport stream, groups what a stream
-- sends into bursts, and estimates the available bandwidth of each link from the gaps between
-- packets and between their acknowledgements. Each host reports what it finds to a scheduler, which
-- stores it beside the throughputs that the emulator measures. This library models that path, from a
-- captured frame to the rows of the database, and proves what the operations on the way keep and do.
--
-- Parts, in the order in which data goes through them:
--   Config.antt: src/config.rs, the settings, their defaults and which source of them wins, and
--     (Settings) how each field of the file is read.
--   Capture.antt: src/listener/capture.rs. `PCAPMeta`, the captured frame, and (Capturer) the device,
--     its settings and the capture loop.
--   Packet.antt: src/listener/packet/. Direction, the transport layer (transport_packet.rs), the
--     parsed packet (packet_builder.rs), the packet as the trackers keep it (data_packet.rs).
--   Tracking.antt: src/listener/tracking/. Keys (StreamId: stream_id.rs), bursts and one direction of
--     a TCP connection (Burst, TcpStream, TcpTracker: tcp_tracker.rs), UdpTracker, GenericTracker,
--     Tracker, the manager of the streams of one link (StreamManager: stream_manager.rs), and the
--     links with the messages about them (LinkState and Link: link.rs).
--   Registry.antt: src/listener/packet/packet_registry.rs (PacketRegistry), and estimation.rs
--     (Estimation, with the robust regression in Regression).
--   Parser.antt: src/listener/parser.rs, one turn of the event loop on every event, and the poller
--     (Polling).
--   Procfs.antt: src/listener/procfs_reader.rs, the tables of sockets and the search of an interface.
--   Probe.antt: src/probe/. The output of iperf3 and its JSON (Iperf: iperf.rs, IperfJson:
--     iperf_json.rs), Pathload (pathload.rs) and the pingers (Ping: ping.rs).
--   Net.antt: src/prost_net/ and the messages of proto/bandwidth.proto. One client (BwClient) and the
--     handler of all of them (ClientHandler), from bandwidth_client.rs; the handlers of the server and
--     the broadcast of messages (BwServer), from bandwidth_server.rs and `stream_data_msg`.
--   Scheduler.antt: src/scheduler/. The session of the emulator and the throughputs on its links
--     (CoreSession, Throughput, Listener: core_grpc.rs), the receiving end of the hosts' messages
--     (Receiving: receiving_server.rs), the loop over both (Server: scheduler.rs) and the statements
--     that store them (Database: db_util.rs, with the tables of up.sql in Schema). Delivery composes the way of a measurement, through
--     Parser, Net and these.
--   Main.antt: src/main.rs, the tasks that are started, and how the program ends.
--   Prelude.antt: the numbers, lists, maps, sorting and panics that the parts share.
--   Tests.antt: data, and the theorems applied to it.
--
-- How the state corresponds: a struct is a record with the source's fields, a method that takes
-- `&mut self` is a function that returns the new state, and a function has its source's name. Names
-- that differ: `StreamManager::default` is `StreamManager.new`, the methods of `StreamKey` begin with
-- `key_`, those of `TcpBurst` with `tcp_`. `BwClient::send_hello` is `say_hello` and its loop is
-- `event_loop`; of `ClientHandler`, `init_clients` is `connect_all`, `send_hello` is `greet` and the
-- body of the loop is `handle`. The loop over the output of iperf3 is `read_results`, and what serde
-- derives for a struct is `read_` and its name. The loops and matches inside a method are helpers
-- beside it. `Run` stands for code that may panic: `unwrap`, and slices out of range.
--
-- Numbers: u8, u16 and u32 wrap around, as in a release build. `SystemTime` and `Duration` count
-- nanoseconds; what the clock says is an argument, and for the links of a report one for each
-- link (`Readings`). An f64 is a type with the operations that the
-- program uses (`Double`), of which nothing is assumed unless a theorem says so; `micro_double`
-- stands in for it in the tests. A HashMap is the list of its entries in the order of iteration, and
-- searches it through the hasher (`Prober`), an argument; a BTreeMap is the ordered list.
--
-- Not under src/, and arguments therefore: what pnet reads from the bytes of a header (`Pnet`), the
-- hasher, the devices that pcap lists (`Devices`), the tables of procfs and the interfaces of netlink,
-- JSON and TOML parsing, the conversion of a time by chrono, how a connection or a call ends (`Dial`,
-- `Hello`, `World`), and the items that a broadcast channel delivers. Loops are by recursion on the
-- list of what they receive, in the order in which it comes, or on the bytes that are left to read; the
-- regression has the 100 rounds of the source as its fuel, which is all that the source allows.
--
-- Not modelled, since they only call libraries or start processes and tasks: `main` of the
-- scheduler, the spawning of tasks, the binding of ports, the child processes of the probes, the
-- client's `subscribe_bandwidth` and `send_message`, which nothing calls, logging and `Display`.
pub mod Capture
pub mod Config
pub mod Main
pub mod Net
pub mod Packet
pub mod Parser
pub mod Prelude
pub mod Probe
pub mod Procfs
pub mod Registry
pub mod Scheduler
pub mod Tests
pub mod Tracking
