-- ===== src/Tests/Links.antt =====
-- Links and the event loop at concrete inputs, with millionths for floats.
use network_listener.Prelude.{
  ℕ, ◌+◌, ◌≡◌, ◌⊎◌, refl, true, false, none, some, [], ◌∷◌, length, Returns, arith, from_secs, ◌++◌,
  zero, suc, Option, List, u32,
}
use network_listener.Prelude.Double.{micro_double}
use network_listener.Prelude.HashMap
use network_listener.Packet.Ip.{v4}
use network_listener.Config.{default_config}
use network_listener.Tracking.StreamId
use network_listener.Tracking.StreamId.{IpPair, pair_eq, ip_pair_from_packet, ip_pair_hashed}
use network_listener.Tracking.Link
use network_listener.Tracking.Link.{
  LinkManager, Readings, ext_pair, is_filtered, insert, periodic, get_link_by_ext_ip,
}
use network_listener.Tracking.Link.Lookup.{Collides, get_link_by_ext_ip-Collides}
use network_listener.Tracking.Link.Inserting.{AllSound, insert_total}
use network_listener.Parser.{
  Parser, Moment, cleanup_tick, periodic_data, new, step, handle_periodic,
}
use network_listener.Packet.Direction.{incoming, outgoing}
use network_listener.Tracking.StreamManager.{StreamManager}
use network_listener.Tracking.Link.Rates.{bytes_in, window, window_total}
use network_listener.Parser.Polling.{latest, netlink_of, handle_all, handle_all-netlink_of}
use network_listener.Parser.Handling.{IsSoundParser, step_total}
use network_listener.Parser.Reaching.{Reachable, start, turn, Reachable-IsSoundParser}
use network_listener.Tests.{own_ip, far_ip, data_packet, reader, own_device}
use network_listener.Tests.Packets.{same_words}
use network_listener.Tests.Managers.{connected, connected-IsSoundManager}
use network_listener.Tests.Estimates.{micro-PositiveIsNumber}

abbrev link : IpPair
link = record { local = v4 own_ip; remote = v4 far_ip }

abbrev links : LinkManager ℕ
links = record { links = (link, connected) ∷ []; vip_links = []; pcap_meta = own_device }

links-AllSound : AllSound links.links
links-AllSound = (
  record { sound = connected-IsSoundManager; sent_fits = omega arith; received_fits = omega arith },
  tt,
)

insert_total_example :
    Returns (insert default_config same_words (from_secs 7) links data_packet) λ m'.
      AllSound m'.links
      × (((is_filtered default_config data_packet ≡ true) × (m' ≡ links))
          ⊎ ((is_filtered default_config data_packet ≡ false)
              × (length m'.links
                  ≡ 1
                    + HashMap.grows
                        (HashMap.get same_words (ip_pair_from_packet data_packet) links.links))))
insert_total_example =
    insert_total default_config same_words (from_secs 7) links data_packet links-AllSound

-- a hasher that leads all keys to one place
abbrev one_place : HashMap.Prober
one_place v w = true

get_link_by_ext_ip-Collides_example :
    Collides one_place (ext_pair own_device (v4 far_ip)) connected links.links
get_link_by_ext_ip-Collides_example =
    get_link_by_ext_ip-Collides one_place links far_ip (refl, tt) (λ e. cc)
      (unfold get_link_by_ext_ip ext_pair HashMap.get StreamId.new pair_eq in refl)

-- the clocks go on by a second from link to link
abbrev pub ticking : ℕ → Readings
ticking i = record {
  sent_taken = from_secs (31 + i);
  received_taken = from_secs (31 + i);
  tstamp = from_secs (31 + i);
  instant = i;
}

-- the link after a report
abbrev counted_out : StreamManager ℕ
counted_out = record connected { bytes_sent = 0; bytes_received = 0 }

window_total_example :
    Returns
      (window same_words default_config
        (ticking 0)
        link
        counted_out
        (data_packet ∷ data_packet ∷ []))
      λ ((l, rtt, pgm), m).
        (l.thp_in
          ≡ micro_double.div
              (micro_double.of_nat (u32 (bytes_in incoming (data_packet ∷ data_packet ∷ []))))
              (micro_double.as_secs default_config.client.measurement_window))
        × (l.thp_out
            ≡ micro_double.div
                (micro_double.of_nat (u32 (bytes_in outgoing (data_packet ∷ data_packet ∷ []))))
                (micro_double.as_secs default_config.client.measurement_window))
        × (m.bytes_sent ≡ 0)
        × (m.bytes_received ≡ 0)
window_total_example =
    window_total same_words micro-PositiveIsNumber default_config (ticking 0) link counted_out
      (data_packet ∷ data_packet ∷ []) refl
      (record {
        sound = record {
          streams_sound = connected-IsSoundManager.streams_sound;
          sent_counted = refl;
          received_counted = refl;
        };
        sent_fits = omega arith;
        received_fits = omega arith;
      })
      refl refl

abbrev pub at_31 : Moment
at_31 = record { now = from_secs 31; instant = 0; readings = ticking; is_open = true }

abbrev pub running : Parser ℕ ℕ ℕ
running = record {
  pcap_meta = own_device;
  link_manager = links;
  netlink_data = [];
  netstat_data = none;
}

step_total_example :
    Returns
      (step default_config reader same_words at_31 running cleanup_tick)
      λ r. IsSoundParser r.0
step_total_example =
    step_total default_config reader same_words micro-PositiveIsNumber refl at_31 running
      cleanup_tick (record { links_sound = links-AllSound; window_bounded = omega arith })
      ((omega arith, tt), tt)

abbrev begun : Parser ℕ ℕ ℕ
begun = record {
  pcap_meta = own_device;
  link_manager = record { links = []; vip_links = []; pcap_meta = own_device };
  netlink_data = [];
  netstat_data = none;
}

-- thirteen samples, of which the first has nothing of netlink
abbrev samples : List (Option ℕ × ℕ)
samples = (none, 0) ∷ counted 12
  where
    counted : ℕ → List (Option ℕ × ℕ)
    counted zero = []
    counted (suc n) = (some n, n) ∷ counted n

handle_all-netlink_of_example :
    (handle_all begun samples).netlink_data ≡ latest (begun.netlink_data ++ netlink_of samples)
handle_all-netlink_of_example = handle_all-netlink_of samples begun (omega arith)

-- after one sample of netlink and procfs
abbrev sampled : Parser ℕ ℕ ℕ
sampled = record begun { netlink_data = 5 ∷ []; netstat_data = some 7 }

sampled-Reachable : Reachable default_config reader same_words own_device sampled
unfolding step new Link.new handle_periodic
sampled-Reachable =
    turn at_31 (periodic_data (some 5) 7) {p = begun} {r = (sampled, [])} start tt refl

Reachable-IsSoundParser_example : IsSoundParser sampled
Reachable-IsSoundParser_example =
    Reachable-IsSoundParser default_config reader same_words micro-PositiveIsNumber refl own_device
      sampled sampled-Reachable
