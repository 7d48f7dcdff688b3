-- ===== src/Tracking/TcpStream/Acking.antt =====
-- `update_acked_packets` against a specification by the covered prefix of the tracked packets.
use network_listener.Prelude.{
  Perm, sort_by-perm, ℕ, ◌+◌, ◌-◌, ◌<◌, ◌≡◌, refl, ap, true, false, Option, none, some, List, [],
  ◌∷◌, ◌++◌, length, length-append, if◌then◌else◌, arith, ltb, leb, sym, ◌∙◌, ◌||◌, ◌==◌, ◌%◌, Bool,
  Duration, duration_since, sort_by, by_key, IsSorted, sort_by_key-IsSorted, length-sort_by,
}
use network_listener.Prelude.BTreeMap
use network_listener.Prelude.BTreeMap.{BTreeMap}
use network_listener.Packet.DataPacket.{DataPacket, PacketType, deref, sent, received}
use network_listener.Tracking.Burst.{payload_len_of, sent_time_of}
use network_listener.Tracking.TcpStream.{
  TcpStream, is_covered, stamp, longer, ack_pass, take_keys, update_acked_packets, seq_less_equal,
}

-- The ack is the number behind the packet's last byte, or at most half of all numbers ahead of it.
abbrev pub covers : ℕ → ℕ → PacketType → Bool
covers ack seq p =
    let behind = ((seq + payload_len_of p) % 4294967296 + 4294967296 - ack) % 4294967296 in
    behind == 0 || leb 2147483648 behind

pub is_covered_lem : (ack seq : ℕ) (p : PacketType) → is_covered ack seq p ≡ covers ack seq p
unfolding seq_less_equal
is_covered_lem ack seq p = ground arith

-- the longest prefix of packets that the ack covers, and what is behind it
abbrev pub covered : ℕ → BTreeMap PacketType → BTreeMap PacketType
covered ack [] = []
covered ack ((seq, p) ∷ rest) =
    let more = covered ack rest in if covers ack seq p then (seq, p) ∷ more else []

abbrev pub uncovered : ℕ → BTreeMap PacketType → BTreeMap PacketType
uncovered ack [] = []
uncovered ack ((seq, p) ∷ rest) =
    let more = uncovered ack rest in if covers ack seq p then more else (seq, p) ∷ rest

-- the record of a packet that `pkt` acknowledged after this time
abbrev pub acked_after : PacketType → Duration → DataPacket → DataPacket
acked_after pkt rtt p = record p {
  rtt = some rtt;
  ack_time = some (deref pkt).sent_time;
  gap_last_ack = (deref pkt).gap_last_ack;
}

-- a packet with its round trip to `pkt`, where that is no negative time
abbrev pub with_trip : PacketType → PacketType → Option Duration → PacketType
with_trip pkt p none = p
with_trip pkt (sent p) (some rtt) = sent (acked_after pkt rtt p)
with_trip pkt (received p) (some rtt) = received (acked_after pkt rtt p)

abbrev pub round_trip : PacketType → PacketType → Option Duration
round_trip pkt p = duration_since (deref pkt).sent_time (deref p).sent_time

abbrev pub stamped : PacketType → PacketType → PacketType
stamped pkt p = with_trip pkt p (round_trip pkt p)

abbrev pub stamped_values : PacketType → BTreeMap PacketType → List PacketType
stamped_values pkt [] = []
stamped_values pkt ((seq, p) ∷ rest) = stamped pkt p ∷ stamped_values pkt rest

-- the longer one of a time and a round trip
abbrev pub raised : Duration → Option Duration → Duration
raised max_rtt none = max_rtt
raised max_rtt (some rtt) = if ltb max_rtt rtt then rtt else max_rtt

abbrev pub longest : PacketType → Duration → BTreeMap PacketType → Duration
longest pkt max_rtt [] = max_rtt
longest pkt max_rtt ((seq, p) ∷ rest) = longest pkt (raised max_rtt (round_trip pkt p)) rest

pub stamp_lem : (pkt p : PacketType) (rtt : Option Duration) → stamp pkt p rtt ≡ with_trip pkt p rtt
unfolding stamp
stamp_lem pkt p none = refl
stamp_lem pkt (sent p) (some rtt) = refl
stamp_lem pkt (received p) (some rtt) = refl

pub longer_lem :
    (max_rtt : Duration) (rtt : Option Duration) → longer max_rtt rtt ≡ raised max_rtt rtt
unfolding longer
longer_lem max_rtt none = refl
longer_lem max_rtt (some rtt) = ground arith

abbrev stamped_entries : PacketType → BTreeMap PacketType → BTreeMap PacketType
stamped_entries pkt [] = []
stamped_entries pkt ((seq, p) ∷ rest) = (seq, stamped pkt p) ∷ stamped_entries pkt rest

abbrev keys : BTreeMap PacketType → List ℕ
keys [] = []
keys ((seq, p) ∷ rest) = seq ∷ keys rest

ack_pass_lem :
    (ack : ℕ) (pkt : PacketType) (max_rtt : Duration) (m : BTreeMap PacketType)
    → ack_pass ack pkt max_rtt m ≡ record {
      packets = stamped_entries pkt (covered ack m) ++ uncovered ack m;
      max_rtt = longest pkt max_rtt (covered ack m);
      keys_to_remove = keys (covered ack m);
    }
unfolding ack_pass
ack_pass_lem ack pkt max_rtt [] = refl
ack_pass_lem ack pkt max_rtt ((seq, p) ∷ rest) =
    let rtt = duration_since (sent_time_of pkt) (sent_time_of p) in
    rw (is_covered_lem ack seq p, stamp_lem pkt p rtt, longer_lem max_rtt rtt)
      (ground (arith, ack_pass_lem ack pkt (raised max_rtt rtt) rest))

-- each key stands at the head when its turn comes
take_keys_lem :
    (pkt : PacketType) (c u : BTreeMap PacketType)
    → take_keys (keys c) (stamped_entries pkt c ++ u) ≡ (stamped_values pkt c, u)
unfolding take_keys BTreeMap.get BTreeMap.remove
take_keys_lem pkt [] u = refl
take_keys_lem pkt ((seq, p) ∷ c) u = ground (arith, take_keys_lem pkt c u)

-- An ack releases the longest prefix of the tracked packets that it covers, in order of their
-- times. Each of them that was not sent after the ack has the time between the two as its round
-- trip, the time of the ack, and the gap of the ack to the one before; the rest stays tracked, and
-- the longest round trip of the stream is raised to the longest one that was set.
pub update_acked_packets_lem :
    (s : TcpStream) (ack : ℕ) (pkt : PacketType)
    → update_acked_packets s ack pkt ≡ (
      sort_by (by_key sent_time_of) (stamped_values pkt (covered ack s.packets)),
      record s {
        packets = uncovered ack s.packets;
        max_rtt = longest pkt s.max_rtt (covered ack s.packets);
      },
    )
unfolding update_acked_packets
update_acked_packets_lem s ack pkt = rw (ack_pass_lem, take_keys_lem)

covered-append-uncovered :
    (ack : ℕ) (m : BTreeMap PacketType) → covered ack m ++ uncovered ack m ≡ m
covered-append-uncovered ack [] = refl
covered-append-uncovered ack ((seq, p) ∷ rest) = ground (arith, covered-append-uncovered ack rest)

length-stamped_values :
    (pkt : PacketType) (m : BTreeMap PacketType) → length (stamped_values pkt m) ≡ length m
length-stamped_values pkt [] = refl
length-stamped_values pkt ((seq, p) ∷ rest) = omega (arith, length-stamped_values pkt rest)

-- No packet is lost or made up by an ack: the released ones are a permutation, in order of their
-- times, of the covered ones with their round trips, and covered and remaining ones together are the
-- packets that were tracked, in their order and in number.
pub update_acked_packets_conserve :
    (s : TcpStream) (ack : ℕ) (pkt : PacketType)
    → let (acked, s') = update_acked_packets s ack pkt in
      (length acked + length s'.packets ≡ length s.packets)
      × (covered ack s.packets ++ s'.packets ≡ s.packets)
      × Perm acked (stamped_values pkt (covered ack s.packets))
      × IsSorted (by_key sent_time_of) acked
update_acked_packets_conserve s ack pkt = rw (update_acked_packets_lem s ack pkt) (
  omega (
    arith,
    length-sort_by (by_key sent_time_of) (stamped_values pkt (covered ack s.packets)),
    length-stamped_values pkt (covered ack s.packets),
    length-append (covered ack s.packets) (uncovered ack s.packets),
    ap length (covered-append-uncovered ack s.packets),
  ),
  covered-append-uncovered ack s.packets,
  sort_by-perm (by_key sent_time_of) (stamped_values pkt (covered ack s.packets)),
  sort_by_key-IsSorted sent_time_of _,
)

covered-first :
    (ack seq : ℕ) (p : PacketType) (rest m : BTreeMap PacketType)
    → m ≡ (seq, p) ∷ rest
    → is_covered ack seq p ≡ false
    → (covered ack m ≡ []) × (uncovered ack m ≡ m)
covered-first ack seq p rest m e c = rw e (rw (sym (is_covered_lem ack seq p) ∙ c) (refl, refl))

-- an ack that does not cover the first tracked packet changes nothing
update_acked_packets_blocked :
    (s : TcpStream) (ack seq : ℕ) (p pkt : PacketType) (rest : BTreeMap PacketType)
    → s.packets ≡ (seq, p) ∷ rest
    → is_covered ack seq p ≡ false
    → update_acked_packets s ack pkt ≡ ([], s)
unfolding sort_by
update_acked_packets_blocked s ack seq p pkt rest e c =
    let (none_covered, all_left) = covered-first ack seq p rest s.packets e c in
    rw (update_acked_packets_lem s ack pkt) (rw (none_covered, all_left))

-- When just two packets with payload are tracked, one whose bytes end where the sequence numbers
-- wrap and one that starts there, an ack of all bytes up to the wrap covers the former, and yet
-- releases nothing and leaves the stream as it is.
pub update_acked_packets_wrap :
    (s : TcpStream) (before after pkt : PacketType)
    → 0 < payload_len_of before
    → payload_len_of before < 65536
    → 0 < payload_len_of after
    → payload_len_of after < 65536
    → let seq = 4294967296 - payload_len_of before in
      s.packets ≡ (0, after) ∷ (seq, before) ∷ []
      → (is_covered 0 seq before ≡ true) × (update_acked_packets s 0 pkt ≡ ([], s))
unfolding seq_less_equal
update_acked_packets_wrap s before after pkt b b' a a' e =
    (ground arith, update_acked_packets_blocked s 0 0 after pkt _ e (ground arith))
