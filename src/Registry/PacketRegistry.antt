-- ===== src/Registry/PacketRegistry.antt =====
-- src/listener/packet/packet_registry.rs
pub mod Extending
use network_listener.Prelude.{
  ℕ, ◌+◌, Bool, true, false, ◌&&◌, Option, none, some, List, [], ◌∷◌, ◌++◌, length, is_empty, ◌==◌,
  if◌then◌else◌, Run, ok, ◌>>=◌, u8, u16, u32, SystemTime, Duration, as_micros,
}
use network_listener.Prelude.Double.{Double}
use network_listener.Packet.DataPacket.{PacketType, deref}
use network_listener.Tracking.Burst.{
  Acked, TcpBurst, Burst, acked_len, get_gin_gout_len, flatten_tcp, throughput,
}
use network_listener.Registry.Estimation
use network_listener.Registry.Estimation.{
  GinGout, PabweSender, passive_pgm_abw, passive_pgm_abw_rls,
}

pub data RegressionType : Type 0 where
  rls simple : RegressionType

pub record PacketRegistry (F : Type 0) : Type 0 where
  pub rtts : List (ℕ × SystemTime)
  pub sum_rtt : F
  -- the second part of the pair `sum_rtt`
  pub rtt_count : ℕ
  pub burst_thput : List F
  pub pgm_estimator : PabweSender F
  pub smallest_rtt : F
  -- the time in the pair `min_rtt`
  pub smallest_rtt_time : SystemTime
  pub retransmissions : ℕ

module _ {F : Type 0} ⦃f : Double F⦄ where
  open f use {add, div, le, of_nat, max_value}

  -- `now` is what the clock says
  unfoldable pub new : SystemTime → PacketRegistry F
  unfolding Estimation.new
  new now = record {
    rtts = [];
    sum_rtt = of_nat 0;
    rtt_count = 0;
    burst_thput = [];
    pgm_estimator = Estimation.new;
    smallest_rtt = max_value;
    smallest_rtt_time = now;
    retransmissions = 0;
  }

  unfoldable min_rtt : PacketRegistry F → Option F
  min_rtt r =
      if le r.smallest_rtt max_value && le max_value r.smallest_rtt
      then none
      else some r.smallest_rtt

  unfoldable pub passive_abw :
      ℕ → PacketRegistry F → RegressionType → Run (Option F × List (GinGout F))
  passive_abw link_phy_cap r rls = passive_pgm_abw_rls link_phy_cap r.pgm_estimator
  passive_abw link_phy_cap r simple = passive_pgm_abw link_phy_cap r.pgm_estimator

  unfoldable pub take : SystemTime → PacketRegistry F → PacketRegistry F × PacketRegistry F
  unfolding new
  take now r = (r, new now)

  mean_point : Acked → F → F → ℕ → GinGout F
  mean_point ack gin gout total_length =
      let n = of_nat (acked_len ack) in
      record {
        gin = div gin n;
        gout = div gout n;
        len = div (of_nat total_length) n;
        num_acked = u8 (acked_len ack);
        timestamp = ack.ack_time;
      }

  -- one group behind the first; one without gaps is skipped and leaves `last_ack` as it is
  push_point : Acked → SystemTime → PabweSender F → Option (F × F × ℕ) → SystemTime × PabweSender F
  unfolding mean_point Estimation.push
  push_point ack last_ack e none = (last_ack, e)
  push_point ack last_ack e (some (gin, gout, total_length)) =
      (ack.ack_time, Estimation.push e (mean_point ack gin gout total_length))

  -- the loop over the groups
  push_points : Option SystemTime → PabweSender F → List Acked → PabweSender F
  unfolding push_point
  push_points last_ack e [] = e
  push_points none e (ack ∷ rest) = push_points (some ack.ack_time) e rest
  push_points (some last_ack) e (ack ∷ rest) =
      let (last_ack', e') = push_point ack last_ack e (get_gin_gout_len ack last_ack) in
      push_points (some last_ack') e' rest

  record_rtt : PacketRegistry F → PacketType → Option Duration → PacketRegistry F
  record_rtt r p none = r
  record_rtt r p (some rtt) = record r {
    smallest_rtt = f.min r.smallest_rtt (of_nat (as_micros rtt));
    smallest_rtt_time = (deref p).sent_time;
    sum_rtt = add r.sum_rtt (of_nat (as_micros rtt));
    rtt_count = u32 (r.rtt_count + 1);
    retransmissions = u16 (r.retransmissions + (deref p).retransmissions);
    rtts = r.rtts ++ (u32 (as_micros rtt), (deref p).sent_time) ∷ [];
  }

  record_rtts : PacketRegistry F → List PacketType → PacketRegistry F
  unfolding record_rtt
  record_rtts r [] = r
  record_rtts r (p ∷ rest) = record_rtts (record_rtt r p (deref p).rtt) rest

  record_details : PacketRegistry F → Burst → PacketRegistry F
  unfolding push_points record_rtts
  record_details r (Burst.tcp burst) =
      record_rtts (record r { pgm_estimator = push_points none r.pgm_estimator burst.packets })
        (flatten_tcp burst)
  record_details r _ = r

  unfoldable pub extend : PacketRegistry F → Burst → Run (PacketRegistry F)
  unfolding record_details
  extend r values = do
    rate ← throughput values
    ok (record_details (record r { burst_thput = r.burst_thput ++ rate ∷ [] }) values)

  unfoldable pub avg_rtt : PacketRegistry F → Option F
  avg_rtt r = if r.rtt_count == 0 then none else some (div r.sum_rtt (of_nat r.rtt_count))

  sum_f : F → List F → F
  sum_f acc [] = acc
  sum_f acc (x ∷ rest) = sum_f (add acc x) rest

  unfoldable avg_burst_thp : PacketRegistry F → Option F
  unfolding sum_f
  avg_burst_thp r =
      if is_empty r.burst_thput
      then none
      else some (div (sum_f (of_nat 0) r.burst_thput) (of_nat (length r.burst_thput)))
