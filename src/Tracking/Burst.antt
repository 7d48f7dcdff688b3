-- ===== src/Tracking/Burst.antt =====
-- src/listener/tracking/tcp_tracker.rs: the groups of acknowledged packets, and bursts of them.
pub mod Measures
use network_listener.Prelude.{
  ℕ, ◌+◌, Bool, true, false, Option, none, some, List, [], ◌∷◌, ◌++◌, length, is_empty, first, last,
  sum_by, ltb, if◌then◌else◌, Run, ok, panic, ◌>>=◌, u32, SystemTime, Duration, unix_epoch,
  duration_since,
}
use network_listener.Prelude.Double.{Double}
use network_listener.Packet.DataPacket.{PacketType, deref}

pub record Acked : Type 0 where
  pub acked_packets : List PacketType
  pub ack_time : SystemTime
  pub first_sent_time : Option SystemTime
  pub last_sent_time : SystemTime
  pub total_length : ℕ

pub record TcpBurst : Type 0 where
  pub packets : List Acked

pub data Burst : Type 0 where
  tcp : TcpBurst → Burst
  udp other : List PacketType → Burst

abbrev pub total_length_of : PacketType → ℕ
total_length_of p = (deref p).total_length

abbrev pub payload_len_of : PacketType → ℕ
payload_len_of p = (deref p).payload_len

abbrev pub sent_time_of : PacketType → SystemTime
sent_time_of p = (deref p).sent_time

group : List PacketType → SystemTime → Option SystemTime → Option PacketType → Run Acked
group acked_packets ack_time first_sent_time none = panic
group acked_packets ack_time first_sent_time (some latest) = ok (record {
  acked_packets = acked_packets;
  ack_time = ack_time;
  first_sent_time = first_sent_time;
  last_sent_time = sent_time_of latest;
  total_length = u32 (sum_by total_length_of acked_packets);
})

-- `Acked::from_acked`: an empty list has no last packet
unfoldable pub from_acked : List PacketType → SystemTime → Option SystemTime → Run Acked
unfolding group
from_acked acked_packets ack_time first_sent_time =
    group acked_packets ack_time first_sent_time (last acked_packets)

module _ {F : Type 0} ⦃f : Double F⦄ where
  gaps : List PacketType → Option Duration → Option Duration → Option (F × F × ℕ)
  gaps packets (some gin) (some gout) =
      some (f.as_secs gin, f.as_secs gout, u32 (sum_by payload_len_of packets))
  gaps packets _ _ = none

  gin_gout_from : Acked → SystemTime → Option SystemTime → Option (F × F × ℕ)
  unfolding gaps
  gin_gout_from acked last_ack none = none
  gin_gout_from acked last_ack (some first_sent_time) =
      gaps acked.acked_packets (duration_since acked.last_sent_time first_sent_time)
        (duration_since acked.ack_time last_ack)

  -- `Acked::get_gin_gout_len`
  unfoldable pub get_gin_gout_len : Acked → SystemTime → Option (F × F × ℕ)
  unfolding gin_gout_from
  get_gin_gout_len acked last_ack = gin_gout_from acked last_ack acked.first_sent_time

-- `Acked::len`
abbrev pub acked_len : Acked → ℕ
acked_len acked = length acked.acked_packets

-- `TcpBurst::default`
unfoldable pub no_burst : TcpBurst
no_burst = record { packets = [] }

flatten_groups : List Acked → List PacketType
flatten_groups [] = []
flatten_groups (acked ∷ rest) = acked.acked_packets ++ flatten_groups rest

-- `TcpBurst::flatten` and `TcpBurst::iter`
unfoldable pub flatten_tcp : TcpBurst → List PacketType
unfolding flatten_groups
flatten_tcp burst = flatten_groups burst.packets

-- `TcpBurst::total_length`
unfoldable pub tcp_total_length : TcpBurst → ℕ
tcp_total_length burst = u32 (sum_by (λ (a : Acked). a.total_length) burst.packets)

span : Option PacketType → Option Acked → Run (Option Duration)
span none latest = panic
span (some p) none = panic
span (some p) (some latest) = ok (duration_since latest.ack_time (sent_time_of p))

burst_span : Option Acked → Option Acked → Run (Option Duration)
unfolding span
burst_span none latest = ok none
burst_span (some earliest) latest = span (first earliest.acked_packets) latest

-- `TcpBurst::time_duration`: a first group with no packet panics
unfoldable pub tcp_time_duration : TcpBurst → Run (Option Duration)
unfolding burst_span
tcp_time_duration burst = burst_span (first burst.packets) (last burst.packets)

time_span : SystemTime → SystemTime → List PacketType → SystemTime × SystemTime
time_span earliest latest [] = (earliest, latest)
time_span earliest latest (p ∷ rest) =
    let t = sent_time_of p in
    time_span (if ltb t earliest then t else earliest) (if ltb latest t then t else latest) rest

-- `Burst::get_time_duration`: both ends start at the epoch
unfoldable pub get_time_duration : List PacketType → Option Duration
unfolding time_span
get_time_duration packets =
    let (earliest, latest) = time_span unix_epoch unix_epoch packets in
    if ltb 1 (length packets) then duration_since latest earliest else none

module _ {F : Type 0} ⦃f : Double F⦄ where
  -- the sum, from the left
  sum_f : F → List PacketType → F
  sum_f acc [] = acc
  sum_f acc (p ∷ rest) = sum_f (f.add acc (f.of_nat (total_length_of p))) rest

  rate_over : List PacketType → Option Duration → F
  unfolding sum_f
  rate_over packets none = f.of_nat 0
  rate_over packets (some d) = f.div (sum_f (f.of_nat 0) packets) (f.as_secs d)

  -- `Burst::get_throughput`
  unfoldable pub get_throughput : List PacketType → F
  unfolding rate_over
  get_throughput packets = rate_over packets (get_time_duration packets)

  unfoldable tcp_rate : TcpBurst → Option Duration → Option F
  tcp_rate burst none = none
  tcp_rate burst (some d) = some (f.div (f.of_nat (tcp_total_length burst)) (f.as_secs d))

  -- `TcpBurst::throughput`
  unfoldable pub tcp_throughput : TcpBurst → Run (Option F)
  unfolding tcp_rate
  tcp_throughput burst = do d ← tcp_time_duration burst; ok (tcp_rate burst d)

  unfoldable or_nought : Option F → F
  or_nought none = f.of_nat 0
  or_nought (some x) = x

  -- `Burst::throughput`
  unfoldable pub throughput : Burst → Run F
  unfolding or_nought
  throughput (Burst.tcp burst) = do rate ← tcp_throughput burst; ok (or_nought rate)
  throughput (Burst.udp packets) = ok (get_throughput packets)
  throughput (Burst.other packets) = ok (get_throughput packets)

-- `Burst::flatten`
unfoldable pub flatten : Burst → List PacketType
flatten (Burst.tcp burst) = flatten_tcp burst
flatten (Burst.udp packets) = packets
flatten (Burst.other packets) = packets

-- `Burst::is_empty`
unfoldable burst_is_empty : Burst → Bool
burst_is_empty (Burst.tcp burst) = is_empty burst.packets
burst_is_empty (Burst.udp packets) = is_empty packets
burst_is_empty (Burst.other packets) = is_empty packets

-- `Burst::burst_size_bytes`; a u64 holds the sum of any list of u16 that fits in memory
unfoldable pub burst_size_bytes : Burst → ℕ
burst_size_bytes (Burst.tcp burst) = tcp_total_length burst
burst_size_bytes (Burst.udp packets) = sum_by total_length_of packets
burst_size_bytes (Burst.other packets) = sum_by total_length_of packets
