-- ===== src/Scheduler/Throughput.antt =====
-- src/scheduler/core_grpc.rs: the loop that turns the throughputs of interfaces into data points
-- about links.
use Prim.Native.String.{String}
use network_listener.Prelude.{
  ℕ, ◌-◌, Bool, true, false, ◌&&◌, ◌||◌, Option, none, some, List, [], ◌∷◌, ◌++◌, ltb,
  if◌then◌else◌, Run, ok, panic, ◌>>=◌, SystemTime, as_millis, length, is_empty,
}
use network_listener.Prelude.Int.{ℤ, pos, negsuc}
use network_listener.Prelude.HashMap
use network_listener.Prelude.HashMap.{Prober}
use network_listener.Scheduler.CoreSession.{
  int_eq, int_hashed, NodePair, Interface, Node, Link, Links, Session,
}
pub mod Naming
pub mod Reporting

-- `core_proto::InterfaceThroughput`
pub record InterfaceThroughput (F : Type 0) : Type 0 where
  pub node_id : ℤ
  pub iface_id : ℤ
  pub throughput : F

pub record ThroughputDp (F : Type 0) : Type 0 where
  pub node1 : String
  pub iface1 : String
  pub ip41 : String
  pub node2 : String
  pub iface2 : String
  pub ip42 : String
  pub throughput : F
  pub timestamp : ℕ

-- ids above 9 are lowered by 6
unfoldable pub node_of : ℤ → ℤ
node_of (pos n) = if ltb 9 n then pos (n - 6) else pos n
node_of (negsuc n) = negsuc n

-- what `thput_event.message()` gives: an event, the end of the stream, or an error
pub data Message (F : Type 0) : Type 0 where
  event : List (InterfaceThroughput F) → Message F
  closed failed : Message F

-- the clock, by the number of data points that stand in the batch when it is read
abbrev pub Clock : Type 0
Clock = ℕ → SystemTime

module _ {O : Type 0} where
  abbrev pub is_end : Link O → ℤ → ℤ → Bool
  is_end link node_id iface_id =
      int_eq link.node1_id node_id && int_eq link.iface1 iface_id
      || int_eq link.node2_id node_id && int_eq link.iface2 iface_id

module _ {F : Type 0} where
  data_point :
      InterfaceThroughput F → SystemTime → Node → Node → Interface → Interface → ThroughputDp F
  data_point thpt now node1 node2 iface1 iface2 = record {
    node1 = node1.name;
    iface1 = iface1.name;
    ip41 = iface1.ip4;
    node2 = node2.name;
    iface2 = iface2.name;
    ip42 = iface2.ip4;
    throughput = thpt.throughput;
    timestamp = as_millis now;
  }

  -- a node or an interface that is missing skips the link
  on_interfaces :
      InterfaceThroughput F
      → SystemTime
      → Node
      → Node
      → Option Interface
      → Option Interface
      → Option (ThroughputDp F)
  unfolding data_point
  on_interfaces thpt now node1 node2 (some iface1) (some iface2) =
      some (data_point thpt now node1 node2 iface1 iface2)
  on_interfaces thpt now node1 node2 _ _ = none

  abbrev pub push_dp : Option (ThroughputDp F) → List (ThroughputDp F) → List (ThroughputDp F)
  push_dp none dps = dps
  push_dp (some dp) dps = dps ++ dp ∷ []

  unfoldable pub push_batch :
      List (ThroughputDp F) → List (List (ThroughputDp F)) → List (List (ThroughputDp F))
  push_batch dps batches = if is_empty dps then batches else batches ++ dps ∷ []

module _ {O F : Type 0} where
  on_nodes :
      Prober
      → InterfaceThroughput F
      → SystemTime
      → Link O
      → Option Node
      → Option Node
      → Option (ThroughputDp F)
  unfolding on_interfaces
  on_nodes probe thpt now link (some node1) (some node2) =
      on_interfaces thpt now node1 node2 (HashMap.get probe link.iface1 node1.interfaces)
        (HashMap.get probe link.iface2 node2.interfaces)
  on_nodes probe thpt now link _ _ = none

  -- the data point of a link that ends at the interface
  unfoldable pub on_link :
      Prober → Session O → InterfaceThroughput F → SystemTime → Link O → Option (ThroughputDp F)
  unfolding on_nodes
  on_link probe session thpt now link =
      if is_end link (node_of thpt.node_id) thpt.iface_id
      then on_nodes probe thpt now link (HashMap.get probe link.node1_id session.nodes)
          (HashMap.get probe link.node2_id session.nodes)
      else none

  -- the loop over the links
  unfoldable pub on_links :
      Prober
      → Session O
      → Clock
      → InterfaceThroughput F
      → Links O
      → List (ThroughputDp F)
      → List (ThroughputDp F)
  on_links probe session clock thpt [] dps = dps
  on_links probe session clock thpt ((key, link) ∷ rest) dps =
      on_links probe session clock thpt rest
        (push_dp (on_link probe session thpt (clock (length dps)) link) dps)

  -- the loop over the interfaces of an event
  unfoldable pub on_event :
      Prober
      → Session O
      → Clock
      → List (InterfaceThroughput F)
      → List (ThroughputDp F)
      → List (ThroughputDp F)
  on_event probe session clock [] dps = dps
  on_event probe session clock (thpt ∷ rest) dps =
      on_event probe session clock rest (on_links probe session clock thpt session.links dps)

  -- the batches that are sent; an error of the stream makes the task panic
  unfoldable pub thput_event_loop :
      Prober
      → Session O
      → List (Clock × Message F)
      → List (List (ThroughputDp F))
      → Run (List (List (ThroughputDp F)))
  unfolding push_batch
  thput_event_loop probe session [] batches = ok batches
  thput_event_loop probe session ((clock, event thpts) ∷ rest) batches =
      thput_event_loop probe session rest
        (push_batch (on_event probe session clock thpts []) batches)
  thput_event_loop probe session ((clock, closed) ∷ rest) batches = ok batches
  thput_event_loop probe session ((clock, failed) ∷ rest) batches = panic
