-- ===== src/Tracking/LinkState.antt =====
-- src/listener/tracking/link.rs: the state of a link, and the messages made of it. A message keeps an
-- address where the program sends its text.
use network_listener.Prelude.{ℕ, Option, none, some, List, map, SystemTime, as_millis}
use network_listener.Prelude.Int.{ℤ, pos}
use network_listener.Prelude.Double.{Double}
use network_listener.Packet.Ip.{IpAddr}
use network_listener.Tracking.StreamId.{IpPair}
use network_listener.Registry.Estimation.{GinGout}

-- `LinkState` of the protocol
pub record LinkStateProto (F : Type 0) : Type 0 where
  pub sender_ip : Option IpAddr
  pub receiver_ip : Option IpAddr
  pub thp_in : F
  pub thp_out : F
  pub bw : F
  pub abw : F
  pub latency : F
  pub delay : F
  pub jitter : F
  pub loss : F
  pub timestamp : ℕ

pub record LinkState (F : Type 0) : Type 0 where
  pub thp_in : F
  pub thp_out : F
  pub bw : Option F
  pub abw : Option F
  pub latency : Option F
  pub delay : Option F
  pub jitter : Option F
  pub loss : Option F
  pub timestamp : ℕ

pub record Link (F : Type 0) : Type 0 where
  pub ip_pair : IpPair
  pub state : LinkState F

pub record PgmDp (F : Type 0) : Type 0 where
  pub gin : F
  pub gout : F
  pub len : ℤ
  pub num_acked : ℤ

pub record PgmDps (F : Type 0) : Type 0 where
  pub pgm_dp : List (PgmDp F)
  pub timestamp : ℕ
  pub sender_ip : IpAddr
  pub receiver_ip : IpAddr

-- a round trip and its time in milliseconds
pub record Rtt (F : Type 0) : Type 0 where
  pub rtt : F
  pub timestamp : ℕ

pub record RttMessage (F : Type 0) : Type 0 where
  pub sender_ip : IpAddr
  pub receiver_ip : IpAddr
  pub rtt : List (Rtt F)

module _ {F : Type 0} ⦃f : Double F⦄ where
  unfoldable pub get_rtt_message : List (ℕ × SystemTime) → IpPair → RttMessage F
  get_rtt_message rtts ip_pair = record {
    sender_ip = ip_pair.local;
    receiver_ip = ip_pair.remote;
    rtt =
        map (λ (r : ℕ × SystemTime). record { rtt = f.of_nat r.0; timestamp = as_millis r.1 }) rtts;
  }

  unfoldable pub pgm_dp : GinGout F → PgmDp F
  pgm_dp dp = record {
    gin = dp.gin;
    gout = dp.gout;
    len = f.to_i32 dp.len;
    num_acked = pos dp.num_acked;
  }

  unfoldable pub or_zero : Option F → F
  or_zero none = f.of_nat 0
  or_zero (some x) = x

  unfoldable state_to_proto : LinkState F → LinkStateProto F
  unfolding or_zero
  state_to_proto s = record {
    sender_ip = none;
    receiver_ip = none;
    thp_in = s.thp_in;
    thp_out = s.thp_out;
    bw = or_zero s.bw;
    abw = or_zero s.abw;
    latency = or_zero s.latency;
    delay = or_zero s.delay;
    jitter = or_zero s.jitter;
    loss = or_zero s.loss;
    timestamp = s.timestamp;
  }

  unfoldable pub to_proto : Link F → LinkStateProto F
  unfolding state_to_proto
  to_proto link = record (state_to_proto link.state) {
    sender_ip = some link.ip_pair.local;
    receiver_ip = some link.ip_pair.remote;
  }
