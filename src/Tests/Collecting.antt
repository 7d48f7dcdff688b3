-- ===== src/Tests/Collecting.antt =====
-- The scheduler at concrete inputs.
use Prim.Native.String.{String}
use network_listener.Prelude.{
  keep, ℕ, ◌+◌, ◌*◌, ◌≤◌, ◌≡◌, ◌⊎◌, refl, true, false, Option, none, some, List, [], ◌∷◌, ◌++◌, map,
  length, sum_by, ok, panic, Returns, from_secs, ltb, if◌then◌else◌,
}
use network_listener.Prelude.Int.{ℤ, pos, negsuc}
use network_listener.Prelude.HashMap
use network_listener.Packet.Ip.{v4}
use network_listener.Net.Messages.{rtts, hello}
use network_listener.Tracking.LinkState.{RttMessage}
use network_listener.Scheduler.CoreSession.{CoreInterface, CoreSession, Session, build_session}
use network_listener.Scheduler.CoreSession.Building.{listed, all_attachable}
use network_listener.Scheduler.CoreSession.Resolving.{Built, build_session_lem}
use network_listener.Scheduler.Throughput.{
  InterfaceThroughput, node_of, on_event, on_links, on_link,
}
use network_listener.Scheduler.Throughput.Naming.{count_reports}
use network_listener.Scheduler.Database.Rows.{Row, row_of}
use network_listener.Scheduler.Server.{ServerEvent, received, all_closed, run_server}
use network_listener.Scheduler.Server.Storing.{event_rows, event_taken, run_server-rows}
use network_listener.Scheduler.Database.Schema.{is_taken}
use network_listener.Scheduler.Receiving.{exited, returned, dispatch_server}
use network_listener.Scheduler.Receiving.Backoff.{failures, delays, dispatch_server-returns}
use network_listener.Scheduler.Listener.{start_listener}
use network_listener.Scheduler.Listener.Batches.{
  Measured, stream, batches_of, Listened, start_listener_lem,
}
use network_listener.Tests.Packets.{same_words, same_words-FindsSame}

abbrev interface_of : ℤ → String → CoreInterface
interface_of id name = record {
  id = id;
  name = name;
  mac = "02:00";
  ip4 = "10.0.0.1";
  ip6 = "fe80::1";
}

-- two hosts and the link between them
abbrev emulated : CoreSession ℕ
emulated = record {
  id = pos 1;
  nodes = record { id = pos 1; name = "n1" } ∷ record { id = pos 2; name = "n2" } ∷ [];
  links =
      record {
        node1_id = pos 1;
        node2_id = pos 2;
        iface1 = some (interface_of (pos 0) "eth0");
        iface2 = some (interface_of (pos 3) "eth3");
        options = 0;
      }
      ∷ [];
}

build_session_lem_example :
    ((all_attachable (listed emulated.nodes) emulated.links ≡ true)
      × Returns (build_session same_words emulated) (Built same_words emulated))
    ⊎ ((all_attachable (listed emulated.nodes) emulated.links ≡ false)
        × (build_session same_words emulated ≡ panic))
build_session_lem_example = build_session_lem same_words same_words-FindsSame emulated

-- the same, built
abbrev session : Session ℕ
session = record {
  id = pos 1;
  nodes =
      (
        pos 1,
        record {
          id = pos 1;
          name = "n1";
          interfaces =
              (
                pos 0,
                record {
                  id = pos 0;
                  ip4 = "10.0.0.1";
                  ip6 = "fe80::1";
                  mac = "02:00";
                  name = "eth0";
                },
              )
              ∷ [];
        },
      )
      ∷ (
        pos 2,
        record {
          id = pos 2;
          name = "n2";
          interfaces =
              (
                pos 3,
                record {
                  id = pos 3;
                  ip4 = "10.0.0.1";
                  ip6 = "fe80::1";
                  mac = "02:00";
                  name = "eth3";
                },
              )
              ∷ [];
        },
      )
      ∷ [];
  links =
      (
        (pos 1, pos 2),
        record { node1_id = pos 1; iface1 = pos 0; node2_id = pos 2; iface2 = pos 3; options = 0 },
      )
      ∷ [];
}

session_is : build_session same_words emulated ≡ ok session
unfolding build_session HashMap.get HashMap.insert
session_is = refl

-- the second is looked up as node 9, which is not known
abbrev measured : List (InterfaceThroughput ℕ)
measured =
    record { node_id = pos 2; iface_id = pos 3; throughput = 1000 }
    ∷ record { node_id = pos 15; iface_id = pos 0; throughput = 5 }
    ∷ []

-- one event that reports, and one that does not
abbrev events : List (Measured ℕ)
events =
    (λ n. from_secs n, measured)
    ∷ (λ n. from_secs (n + 9), record { node_id = pos 15; iface_id = pos 0; throughput = 6 } ∷ [])
    ∷ []

start_listener_lem_example :
    Returns
      (start_listener same_words true (some (some emulated)) (some (stream events from_secs)))
      (Listened same_words emulated events)
start_listener_lem_example =
    start_listener_lem same_words same_words-FindsSame emulated events from_secs refl

one_batch : length (batches_of same_words session events) ≡ 1
unfolding HashMap.get node_of on_event on_links on_link
one_batch = refl

-- one interface is an end of the link, the other is of no node that is known
one_reported : sum_by (λ t. count_reports same_words session t session.links) measured ≡ 1
unfolding HashMap.get node_of
one_reported = refl

-- times up to 100 milliseconds can be converted
abbrev short_times : ℤ → Option ℕ
short_times (pos n) = if ltb n 100 then some n else none
short_times (negsuc n) = none

abbrev trips : RttMessage ℕ
trips = record {
  sender_ip = v4 10;
  receiver_ip = v4 20;
  rtt = record { rtt = 7; timestamp = 50 } ∷ record { rtt = 8; timestamp = 200 } ∷ [];
}

abbrev incoming_events : List (ServerEvent ℕ)
incoming_events = received (hello "hi") ∷ received (rtts (trips ∷ [])) ∷ all_closed ∷ []

abbrev executed_rows : List (Row ℕ ℕ)
executed_rows = map row_of (run_server short_times (pos 4) incoming_events).0

run_server-rows_example :
    (executed_rows ≡ event_rows short_times (pos 4) incoming_events)
    × (keep is_taken executed_rows ≡ event_taken short_times (pos 4) incoming_events)
run_server-rows_example = run_server-rows short_times (pos 4) incoming_events

-- only the trip whose time is short is tried, and it is refused
one_row :
    (length (event_rows {F = ℕ} short_times (pos 4) incoming_events) ≡ 1)
    × (event_taken {F = ℕ} short_times (pos 4) incoming_events ≡ [])
one_row = (refl, refl)

dispatch_server-returns_example :
    (dispatch_server (some 50041) (failures 5 ++ exited ∷ []) ≡ (returned, delays 0 5))
    × (sum_by (λ d. d) (delays 0 5) ≤ 5 * from_secs 30)
dispatch_server-returns_example = dispatch_server-returns 50041 5 []

five_delays :
    delays 0 5 ≡ from_secs 3 ∷ from_secs 6 ∷ from_secs 12 ∷ from_secs 24 ∷ from_secs 30 ∷ []
five_delays = refl
