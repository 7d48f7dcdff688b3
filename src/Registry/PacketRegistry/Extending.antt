-- ===== src/Registry/PacketRegistry/Extending.antt =====
-- What a burst adds to the statistics of a link.
use network_listener.Prelude.{
  ℕ, ◌+◌, ◌-◌, ◌≤◌, ◌≡◌, refl, Option, none, some, List, [], ◌∷◌, ◌++◌, length, length-append,
  append_assoc, append-nil, All, ok, Returns, u32, arith, SystemTime, Duration, as_micros,
}
use network_listener.Prelude.Double.{Double}
use network_listener.Packet.DataPacket.{PacketType, deref}
use network_listener.Tracking.Burst.{
  Acked, Burst, get_gin_gout_len, flatten_tcp, throughput, tcp_throughput,
}
use network_listener.Tracking.Burst.Measures.{IsGroup, tcp_time_duration_total}
use network_listener.Registry.Estimation
use network_listener.Registry.Estimation.{GinGout, PabweSender}
use network_listener.Registry.PacketRegistry.{
  PacketRegistry, mean_point, push_point, push_points, record_rtt, record_rtts, record_details,
  extend,
}

abbrev pub IsWholeTcp : Burst → Type 0
IsWholeTcp (Burst.tcp burst) = All IsGroup burst.packets
IsWholeTcp _ = Unit

-- the round trips of acknowledged packets, in microseconds and with the time of sending
abbrev pub sample : PacketType → Option Duration → List (ℕ × SystemTime)
sample p none = []
sample p (some rtt) = (u32 (as_micros rtt), (deref p).sent_time) ∷ []

abbrev samples : List PacketType → List (ℕ × SystemTime)
samples [] = []
samples (p ∷ rest) = sample p (deref p).rtt ++ samples rest

-- only TCP bursts have round trips
abbrev pub burst_samples : Burst → List (ℕ × SystemTime)
burst_samples (Burst.tcp burst) = samples (flatten_tcp burst)
burst_samples _ = []

abbrev pub group_count : Burst → ℕ
group_count (Burst.tcp burst) = length burst.packets
group_count _ = 0

module _ {F : Type 0} ⦃f : Double F⦄ where
  record_rtt-rtts :
      (r : PacketRegistry F) (p : PacketType) (rtt : Option Duration)
      → (record_rtt r p rtt).rtts ≡ r.rtts ++ sample p rtt
  unfolding record_rtt
  record_rtt-rtts r p none = rw append-nil
  record_rtt-rtts r p (some rtt) = refl

  record_rtts-rtts :
      (r : PacketRegistry F) (ps : List PacketType) → (record_rtts r ps).rtts ≡ r.rtts ++ samples ps
  unfolding record_rtts
  record_rtts-rtts r [] = rw append-nil
  record_rtts-rtts r (p ∷ rest) =
      let rtt = (deref p).rtt in
      rw (record_rtts-rtts (record_rtt r p rtt) rest, record_rtt-rtts r p rtt)
        (append_assoc r.rtts (sample p rtt) (samples rest))

  record_rtt-IsCounted :
      (r : PacketRegistry F) (p : PacketType) (rtt : Option Duration)
      → r.rtt_count ≡ u32 (length r.rtts)
      → (record_rtt r p rtt).rtt_count ≡ u32 (length (record_rtt r p rtt).rtts)
  unfolding record_rtt
  record_rtt-IsCounted r p none h = h
  record_rtt-IsCounted r p (some rtt) h = rw length-append (omega arith)

  record_rtts-IsCounted :
      (r : PacketRegistry F) (ps : List PacketType)
      → r.rtt_count ≡ u32 (length r.rtts)
      → (record_rtts r ps).rtt_count ≡ u32 (length (record_rtts r ps).rtts)
  unfolding record_rtts
  record_rtts-IsCounted r [] h = h
  record_rtts-IsCounted r (p ∷ rest) h =
      record_rtts-IsCounted (record_rtt r p (deref p).rtt) rest
        (record_rtt-IsCounted r p (deref p).rtt h)

  record_rtts-same :
      (r : PacketRegistry F) (ps : List PacketType)
      → ((record_rtts r ps).pgm_estimator ≡ r.pgm_estimator)
        × ((record_rtts r ps).burst_thput ≡ r.burst_thput)
  unfolding record_rtts record_rtt
  record_rtts-same r [] = (refl, refl)
  record_rtts-same r (p ∷ rest) =
      ground (arith, record_rtts-same (record_rtt r p (deref p).rtt) rest)

  push_point-length :
      (ack : Acked) (last_ack : SystemTime) (e : PabweSender F) (g : Option (F × F × ℕ))
      → length (push_point ack last_ack e g).1.dps ≤ length e.dps + 1
  unfolding push_point Estimation.push
  push_point-length ack last_ack e none = omega arith
  push_point-length ack last_ack e (some g) =
      omega (arith, length-append e.dps (mean_point ack g.0 g.1 g.2 ∷ []))

  push_points-length :
      (last_ack : SystemTime) (e : PabweSender F) (groups : List Acked)
      → length (push_points (some last_ack) e groups).dps ≤ length e.dps + length groups
  unfolding push_points
  push_points-length last_ack e [] = omega arith
  push_points-length last_ack e (ack ∷ rest) =
      let gaps = get_gin_gout_len ack last_ack in
      let (last_ack', e') = push_point ack last_ack e gaps in
      omega (arith, push_point-length ack last_ack e gaps, push_points-length last_ack' e' rest)

  push_points_bounded :
      (e : PabweSender F) (groups : List Acked)
      → length (push_points none e groups).dps ≤ length e.dps + (length groups - 1)
  unfolding push_points
  push_points_bounded e [] = omega arith
  push_points_bounded e (ack ∷ rest) = omega (arith, push_points-length ack.ack_time e rest)

  throughput_total :
      (values : Burst) → IsWholeTcp values → (rate : F) × (throughput values ≡ ok rate)
  unfolding throughput tcp_throughput
  throughput_total (Burst.tcp burst) w = rw (tcp_time_duration_total burst w) (_, refl)
  throughput_total (Burst.udp packets) w = (_, refl)
  throughput_total (Burst.other packets) w = (_, refl)

  record_details_lem :
      (r : PacketRegistry F) (values : Burst)
      → r.rtt_count ≡ u32 (length r.rtts)
      → let r' = record_details r values in
        (r'.rtts ≡ r.rtts ++ burst_samples values)
        × (r'.burst_thput ≡ r.burst_thput)
        × (r'.rtt_count ≡ u32 (length r'.rtts))
        × (length r'.pgm_estimator.dps ≤ length r.pgm_estimator.dps + (group_count values - 1))
  unfolding record_details
  record_details_lem r (Burst.tcp burst) h =
      let packets = flatten_tcp burst in
      let start = record r { pgm_estimator = push_points none r.pgm_estimator burst.packets } in
      (
        record_rtts-rtts start packets,
        (record_rtts-same start packets).1,
        record_rtts-IsCounted start packets h,
        rw (record_rtts-same start packets).0 (push_points_bounded r.pgm_estimator burst.packets),
      )
  record_details_lem r (Burst.udp packets) h = (rw append-nil, refl, h, omega arith)
  record_details_lem r (Burst.other packets) h = (rw append-nil, refl, h, omega arith)

  -- Adding a burst of whole groups to a registry whose sample count is right never panics. It
  -- appends one throughput whatever the burst, and, for a TCP burst only, exactly the round trips
  -- of its acknowledged packets in order; the count stays that of the samples, modulo its width;
  -- and there is at most one data point for each group behind the first.
  pub extend_lem :
      (r : PacketRegistry F) (values : Burst)
      → IsWholeTcp values
      → r.rtt_count ≡ u32 (length r.rtts)
      → Returns (extend r values) λ r'.
        (r'.rtts ≡ r.rtts ++ burst_samples values)
        × (length r'.burst_thput ≡ length r.burst_thput + 1)
        × (r'.rtt_count ≡ u32 (length r'.rtts))
        × (length r'.pgm_estimator.dps ≤ length r.pgm_estimator.dps + (group_count values - 1))
  unfolding extend
  extend_lem r values w h =
      let (rate, run) = throughput_total values w in
      let start = record r { burst_thput = r.burst_thput ++ rate ∷ [] } in
      let (rtts, thput, counted, points) = record_details_lem start values h in
      (
        record_details start values,
        rw run,
        (rtts, rw thput (length-append r.burst_thput (rate ∷ [])), counted, points),
      )
