-- ===== src/Scheduler/Throughput/Naming.antt =====
-- What the data point of a link says, where its interfaces are known.
use network_listener.Prelude.{
  ℕ, ◌≡◌, ◌⊎◌, inl, inr, refl, Bool, true, false, ◌&&◌, Option, none, some, if◌then◌else◌,
  Bool-cases, sum_by, SystemTime,
}
use network_listener.Prelude.HashMap
use network_listener.Prelude.HashMap.{Prober}
use network_listener.Scheduler.CoreSession.{
  int_hashed, NodePair, Interface, Node, Link, Links, Session,
}
use network_listener.Scheduler.CoreSession.Building.{is_some, known}
use network_listener.Scheduler.CoreSession.Linking.{Resolved}
use network_listener.Scheduler.Throughput.{
  InterfaceThroughput, ThroughputDp, node_of, is_end, data_point, on_interfaces, on_nodes, on_link,
}

is_some-some : {A : Type 0} (o : Option A) → is_some o ≡ true → (a : A) × (o ≡ some a)
is_some-some none e = cc
is_some-some (some a) e = (a, refl)

module _ {O F : Type 0} (probe : Prober) where
  -- the link ends at the interface, and both its nodes are known
  abbrev pub reports : Session O → InterfaceThroughput F → Link O → Bool
  reports session thpt link =
      is_end link (node_of thpt.node_id) thpt.iface_id
      && (known probe session.nodes link.node1_id && known probe session.nodes link.node2_id)

  abbrev pub count_reports : Session O → InterfaceThroughput F → Links O → ℕ
  count_reports session thpt links =
      sum_by (λ (e : NodePair × Link O). if reports session thpt e.1 then 1 else 0) links

  -- the data point names the two nodes and interfaces of the link
  pub record Describes (session : Session O) (thpt : InterfaceThroughput F) (link : Link O)
      (dp : ThroughputDp F) : Type 0 where
    pub n1 : Node
    pub n2 : Node
    pub i1 : Interface
    pub i2 : Interface
    pub node1_is : HashMap.get probe link.node1_id session.nodes ≡ some n1
    pub node2_is : HashMap.get probe link.node2_id session.nodes ≡ some n2
    pub iface1_is : HashMap.get probe link.iface1 n1.interfaces ≡ some i1
    pub iface2_is : HashMap.get probe link.iface2 n2.interfaces ≡ some i2
    pub first_named : (dp.node1 ≡ n1.name) × (dp.iface1 ≡ i1.name) × (dp.ip41 ≡ i1.ip4)
    pub second_named : (dp.node2 ≡ n2.name) × (dp.iface2 ≡ i2.name) × (dp.ip42 ≡ i2.ip4)
    pub measured : dp.throughput ≡ thpt.throughput

  module _ (session : Session O) (thpt : InterfaceThroughput F) (now : SystemTime) where
    pub on_link_lem :
        (link : Link O)
        → Resolved probe session.nodes link
        → ((reports session thpt link ≡ true)
            × ((dp : ThroughputDp F) × (on_link probe session thpt now link ≡ some dp)
                × Describes session thpt link dp))
          ⊎ ((reports session thpt link ≡ false) × (on_link probe session thpt now link ≡ none))
    unfolding on_link
    on_link_lem link h = elim (Bool-cases (is_end link (node_of thpt.node_id) thpt.iface_id)) [
      | inr n ↦ inr (rw n refl, rw n refl)
      | inl y ↦ rw y (
          nodes (HashMap.get probe link.node1_id session.nodes)
            (HashMap.get probe link.node2_id session.nodes) refl refl)
    ]
      where
        nodes :
            (o1 o2 : Option Node)
            → HashMap.get probe link.node1_id session.nodes ≡ o1
            → HashMap.get probe link.node2_id session.nodes ≡ o2
            → (((is_some o1 && is_some o2) ≡ true)
                × ((dp : ThroughputDp F) × (on_nodes probe thpt now link o1 o2 ≡ some dp)
                    × Describes session thpt link dp))
              ⊎ (((is_some o1 && is_some o2) ≡ false) × (on_nodes probe thpt now link o1 o2 ≡ none))
        nodes none o2 e1 e2 = inr (refl, refl)
        nodes (some n1) none e1 e2 = inr (refl, refl)
        nodes (some n1) (some n2) e1 e2 = inl (
          refl,
          both (is_some-some _ (rw e1 at (h.0 (rw e1 refl))))
              (is_some-some _ (rw e2 at (h.1 (rw e2 refl)))),
        )
          where
            both :
                (i1 : Interface) × (HashMap.get probe link.iface1 n1.interfaces ≡ some i1)
                → (i2 : Interface) × (HashMap.get probe link.iface2 n2.interfaces ≡ some i2)
                → (dp : ThroughputDp F) × (on_nodes probe thpt now link (some n1) (some n2)
                    ≡ some dp)
                  × Describes session thpt link dp
            both (i1, f1) (i2, f2) = (
              data_point thpt now n1 n2 i1 i2,
              rw (f1, f2, on_interfaces) refl,
              record {
                n1 = n1;
                n2 = n2;
                i1 = i1;
                i2 = i2;
                node1_is = e1;
                node2_is = e2;
                iface1_is = f1;
                iface2_is = f2;
                first_named = (refl, refl, refl);
                second_named = (refl, refl, refl);
                measured = refl;
              },
            )
