-- ===== src/Probe/IperfJson.antt =====
-- src/probe/iperf_json.rs: the results of iperf3, and what the event loop reads of one. Their decoding
-- is derived by serde. `F` stands for f64.
use Prim.Native.String.{String}
use network_listener.Prelude.{Bool, Option, List, map}
use network_listener.Prelude.Int.{ℤ}
use network_listener.Packet.Ip.{IpAddr}
use network_listener.Parser
use network_listener.Parser.{Connected}

pub record ConnectedText : Type 0 where
  pub socket : ℤ
  pub local_host : String
  pub local_port : ℤ
  pub remote_host : String
  pub remote_port : ℤ

pub record Start : Type 0 where
  pub connected : List ConnectedText

pub record Sum (F : Type 0) : Type 0 where
  pub start : F
  pub end : F
  pub seconds : F
  pub bytes : F
  pub bits_per_second : F
  pub retransmits : Option F
  pub omitted : Bool
  pub sender : Bool

pub record Interval (F : Type 0) : Type 0 where
  pub sum : Sum F

pub record Sender (F : Type 0) : Type 0 where
  pub socket : ℤ
  pub start : ℤ
  pub end : F
  pub seconds : F
  pub bytes : ℤ
  pub bits_per_second : F
  pub retransmits : Option ℤ
  pub max_snd_cwnd : Option ℤ
  pub max_snd_wnd : Option ℤ
  pub max_rtt : Option ℤ
  pub min_rtt : Option ℤ
  pub mean_rtt : Option ℤ
  pub sender : Bool

pub record Receiver (F : Type 0) : Type 0 where
  pub socket : ℤ
  pub start : ℤ
  pub end : F
  pub seconds : F
  pub bytes : ℤ
  pub bits_per_second : F
  pub sender : Bool

pub record Stream2 (F : Type 0) : Type 0 where
  pub sender : Sender F
  pub receiver : Receiver F

pub record SumSent (F : Type 0) : Type 0 where
  pub start : ℤ
  pub end : F
  pub seconds : F
  pub bytes : ℤ
  pub bits_per_second : F
  pub retransmits : Option ℤ
  pub sender : Bool

pub record SumReceived (F : Type 0) : Type 0 where
  pub start : ℤ
  pub end : F
  pub seconds : F
  pub bytes : ℤ
  pub bits_per_second : F
  pub sender : Bool

pub record End (F : Type 0) : Type 0 where
  pub streams : List (Stream2 F)
  pub sum_sent : SumSent F
  pub sum_received : SumReceived F

pub record Success (F : Type 0) : Type 0 where
  pub intervals : List (Interval F)
  pub end : End F
  pub start : Start

pub data IperfResponse (F : Type 0) : Type 0 where
  success : Success F → IperfResponse F
  error : String → IperfResponse F

module _ (parse : String → Option IpAddr) where
  -- a connection with its hosts parsed
  abbrev hosts : ConnectedText → Connected
  hosts c = record {
    local_host = parse c.local_host;
    local_port = c.local_port;
    remote_host = parse c.remote_host;
    remote_port = c.remote_port;
  }

  -- the part of a result that the event loop reads
  unfoldable pub read : {F : Type 0} → IperfResponse F → Parser.IperfResponse F
  read (success s) =
      Parser.success (map hosts s.start.connected) s.end.sum_received.bits_per_second
        s.end.sum_sent.bits_per_second
  read (error message) = Parser.error
