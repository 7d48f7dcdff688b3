-- ===== src/Tests/Packets.antt =====
-- Packets, options, addresses and keys at concrete inputs.
use network_listener.Prelude.{
  ok, ◌*◌, ◌<◌, ◌≡◌, ◌≢◌, ◌↔◌, refl, true, false, some, [], ◌∷◌, ◌++◌, length, panic, ◌==◌, ◌&&◌,
  arith,
}
use network_listener.Prelude.HashMap
use network_listener.Packet.Direction.{incoming, outgoing}
use network_listener.Packet.Transport.{TcpView, Pnet, get_ip_proto, from_bytes}
use network_listener.Packet.Transport.RoundTrip.{write_options, from_bytes-write_options}
use network_listener.Packet.Parsed.{
  nano, system_time_of, timeval_to_system_time, word_size, from_packet, ParsedPacket,
  get_src_dst_port,
}
use network_listener.Packet.Parsed.Lengths.{
  timeval_nano, from_packet-panics, IsTcpOf, from_packet-lengths,
}
use network_listener.Capture.{OwnedPacket}
use network_listener.Tracking.StreamId.{
  ip_pairable, pair_eq, pair_words, key_from_packet, ip_pair_from_packet, ip_pair_hashed,
}
use network_listener.Tracking.StreamId.Pairing.{answer-same_key, forwarded-words}
use network_listener.Tests.{
  data_packet, ack_packet, ipv4_frame, ipv4_header, reader, captured, own_device,
}

from_bytes-write_options_example :
    from_bytes ((record { number = 8; payload = 1 ∷ [] } ∷ []) ++ write_options 70000 5 7 1460)
    ≡ record { tsval = some 70000; tsecr = some 5; scale = some 7; mss = some 1460 }
from_bytes-write_options_example =
    from_bytes-write_options (record { number = 8; payload = 1 ∷ [] } ∷ []) 70000 5 7 1460

timeval_nano_example :
    (timeval_to_system_time captured.ts ≡ system_time_of nano captured.ts)
    ↔ (captured.ts.tv_usec ≡ 0)
timeval_nano_example = timeval_nano captured.ts (omega arith)

from_packet-panics_example :
    (from_packet reader captured own_device ≡ panic)
    ↔ (length ipv4_frame.payload < ipv4_header.header_length * word_size)
from_packet-panics_example =
    from_packet-panics reader captured own_device ipv4_frame ipv4_header refl refl refl

incoming-outgoing : outgoing ≢ incoming
incoming-outgoing = λ e. cc

answer-same_key_example :
    (key_from_packet data_packet ≡ key_from_packet ack_packet)
    × (ip_pair_from_packet data_packet ≡ ip_pair_from_packet ack_packet)
answer-same_key_example =
    answer-same_key data_packet ack_packet 40000 443 (unfold get_src_dst_port in refl)
      (unfold get_src_dst_port in refl) (unfold get_ip_proto in refl) refl refl incoming-outgoing

-- a hasher without collisions
abbrev pub same_words : HashMap.Prober
same_words [] [] = true
same_words (a ∷ v) (b ∷ w) = (a == b) && same_words v w
same_words _ _ = false

abbrev forwarded_in : ParsedPacket
forwarded_in = record ack_packet { direction = incoming }

abbrev forwarded_out : ParsedPacket
forwarded_out = record ack_packet { direction = outgoing }

forwarded-words_example :
    (pair_eq (ip_pair_from_packet forwarded_out) (ip_pair_from_packet forwarded_in) ≡ true)
    × (pair_words (ip_pair_from_packet forwarded_out)
        ≢ pair_words (ip_pair_from_packet forwarded_in))
forwarded-words_example = forwarded-words forwarded_in forwarded_out refl refl (λ e. cc) refl refl

abbrev tcp_view : TcpView
tcp_view = record {
  data_offset = 5;
  sequence = 1000;
  acknowledgement = 1;
  flags = 0x18;
  options = [];
  source = 443;
  destination = 40000;
  window = 65535;
}

-- a frame of 154 bytes, of which the two inner headers are read
abbrev tcp_reader : Pnet
tcp_reader = record reader {
  ethernet = λ bytes. some (record ipv4_frame { payload = bytes });
  tcp = λ bytes. some tcp_view;
}

abbrev tcp_frame : OwnedPacket
tcp_frame = record captured {
  len = 154;
  bytes =
      1 ∷ 2 ∷ 3 ∷ 4 ∷ 5 ∷ 6 ∷ 7 ∷ 8 ∷ 9 ∷ 10 ∷ 11 ∷ 12 ∷ 13 ∷ 14 ∷ 15 ∷ 16 ∷ 17 ∷ 18 ∷ 19 ∷ 20 ∷ 21
      ∷ [];
}

from_packet-lengths_example :
    (p : ParsedPacket) × (from_packet tcp_reader tcp_frame own_device ≡ ok (some p))
    × IsTcpOf tcp_frame
        (record ipv4_frame { payload = tcp_frame.bytes })
        ipv4_header
        tcp_view
        p
        p.transport
from_packet-lengths_example =
    from_packet-lengths tcp_reader tcp_frame own_device
      (record ipv4_frame { payload = tcp_frame.bytes }) ipv4_header tcp_view refl refl refl refl
      (omega arith) refl (omega arith) (omega arith)

pub same_words-FindsSame : HashMap.FindsSame same_words
same_words-FindsSame [] = refl
same_words-FindsSame (a ∷ v) = ground (arith, same_words-FindsSame v)
