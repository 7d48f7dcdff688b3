-- ===== src/Scheduler/CoreSession.antt =====
-- src/scheduler/core_grpc.rs: the session that the CORE emulator describes, and the throughputs that
-- it reports. The messages are those of src/proto/core.proto, with the fields that are read; `O`
-- stands for the options of a link, which are only kept.
use Prim.Native.String.{String}
use network_listener.Prelude.{
  ℕ, ◌-◌, Bool, true, false, ◌&&◌, Option, none, some, List, [], ◌∷◌, ◌++◌, ltb, ◌==◌,
  if◌then◌else◌, Run, ok, panic, ◌>>=◌, SystemTime, as_millis, length, is_empty,
}
use network_listener.Prelude.Int.{ℤ, pos, negsuc}
use network_listener.Prelude.HashMap
use network_listener.Prelude.HashMap.{HashMap, Hashed, Prober}
pub mod Building
pub mod Linking
pub mod Resolving

-- the equality and the hash of an i32
abbrev pub int_eq : ℤ → ℤ → Bool
int_eq (pos a) (pos b) = a == b
int_eq (negsuc a) (negsuc b) = a == b
int_eq _ _ = false

abbrev pub int_words : ℤ → List ℕ
int_words (pos n) = 0 ∷ n ∷ []
int_words (negsuc n) = 1 ∷ n ∷ []

instance abbrev pub int_hashed : Hashed ℤ
int_hashed = record { equal = int_eq; words = int_words }

abbrev pub NodePair : Type 0
NodePair = ℤ × ℤ

instance abbrev pub node_pair_hashed : Hashed NodePair
node_pair_hashed = record {
  equal = λ (a : NodePair) b. int_eq a.0 b.0 && int_eq a.1 b.1;
  words = λ (a : NodePair). int_words a.0 ++ int_words a.1;
}

-- `core_proto::Interface`
pub record CoreInterface : Type 0 where
  pub id : ℤ
  pub name : String
  pub mac : String
  pub ip4 : String
  pub ip6 : String

-- `core_proto::Link`
pub record CoreLink (O : Type 0) : Type 0 where
  pub node1_id : ℤ
  pub node2_id : ℤ
  pub iface1 : Option CoreInterface
  pub iface2 : Option CoreInterface
  pub options : O

-- `core_proto::Node`
pub record CoreNode : Type 0 where
  pub id : ℤ
  pub name : String

-- `core_proto::Session`
pub record CoreSession (O : Type 0) : Type 0 where
  pub id : ℤ
  pub nodes : List CoreNode
  pub links : List (CoreLink O)

pub record Interface : Type 0 where
  pub id : ℤ
  pub ip4 : String
  pub ip6 : String
  pub mac : String
  pub name : String

pub record Node : Type 0 where
  pub id : ℤ
  pub name : String
  pub interfaces : HashMap ℤ Interface

pub record Link (O : Type 0) : Type 0 where
  pub node1_id : ℤ
  pub iface1 : ℤ
  pub node2_id : ℤ
  pub iface2 : ℤ
  pub options : O

pub record Session (O : Type 0) : Type 0 where
  pub id : ℤ
  pub nodes : HashMap ℤ Node
  pub links : HashMap NodePair (Link O)

abbrev pub Nodes : Type 0
Nodes = HashMap ℤ Node

abbrev pub Links : Type 0 → Type 0
Links O = HashMap NodePair (Link O)

abbrev new_node : CoreNode → Node
new_node node = record { id = node.id; name = node.name; interfaces = [] }

-- the first `collect`: a later node replaces an earlier one with its id
unfoldable pub collect_nodes : Prober → List CoreNode → Nodes → Nodes
collect_nodes probe [] nodes = nodes
collect_nodes probe (node ∷ rest) nodes =
    collect_nodes probe rest (HashMap.insert probe node.id (new_node node) nodes)

abbrev pub copy_interface : CoreInterface → Interface
copy_interface i = record { id = i.id; ip4 = i.ip4; ip6 = i.ip6; mac = i.mac; name = i.name }

-- the id of a link's interface, or -1
abbrev pub id_of : Option CoreInterface → ℤ
id_of none = negsuc 0
id_of (some i) = i.id

abbrev with_interface : Prober → Node → CoreInterface → Node
with_interface probe node i = record node {
  interfaces = HashMap.insert probe i.id (copy_interface i) node.interfaces;
}

-- the interface of a node that was found is unwrapped; a missing node is only reported
attach : Prober → ℤ → Option CoreInterface → Option Node → Nodes → Run Nodes
attach probe id iface none nodes = ok nodes
attach probe id none (some node) nodes = panic
attach probe id (some i) (some node) nodes =
    ok (HashMap.insert probe id (with_interface probe node i) nodes)

unfoldable pub add_interface : Prober → ℤ → Option CoreInterface → Nodes → Run Nodes
unfolding attach
add_interface probe id iface nodes = attach probe id iface (HashMap.get probe id nodes) nodes

module _ {O : Type 0} where
  abbrev pub key_of : CoreLink O → NodePair
  key_of link = (link.node1_id, link.node2_id)

  abbrev pub link_of : CoreLink O → Link O
  link_of link = record {
    node1_id = link.node1_id;
    iface1 = id_of link.iface1;
    node2_id = link.node2_id;
    iface2 = id_of link.iface2;
    options = link.options;
  }

  -- the closure of the second `map`
  unfoldable pub attach_link : Prober → CoreLink O → Nodes → Run Nodes
  unfolding add_interface
  attach_link probe link nodes = do
    nodes ← add_interface probe link.node1_id link.iface1 nodes
    add_interface probe link.node2_id link.iface2 nodes

  -- the second `collect`: a later link replaces an earlier one between the same nodes
  unfoldable pub collect_links :
      Prober → List (CoreLink O) → Nodes → Links O → Run (Nodes × Links O)
  unfolding attach_link
  collect_links probe [] nodes links = ok (nodes, links)
  collect_links probe (link ∷ rest) nodes links = do
    nodes ← attach_link probe link nodes
    collect_links probe rest nodes (HashMap.insert probe (key_of link) (link_of link) links)

  unfoldable pub build_session : Prober → CoreSession O → Run (Session O)
  unfolding collect_nodes collect_links
  build_session probe session = do
    (nodes, links) ← collect_links probe session.links (collect_nodes probe session.nodes []) []
    ok (record { id = session.id; nodes = nodes; links = links })
