-- ===== src/Scheduler/CoreSession/Linking.antt =====
-- What attaching the two sides of a link does.
use network_listener.Prelude.{
  ◌≡◌, ◌⊎◌, inl, inr, refl, ap, sym, ◌∙◌, Bool, true, false, ◌&&◌, panic, Returns, All,
}
use network_listener.Prelude.Int.{ℤ}
use network_listener.Prelude.HashMap.{Prober, FindsSame}
use network_listener.Scheduler.CoreSession.{
  int_hashed, node_pair_hashed, CoreLink, Nodes, Links, Link, id_of, add_interface, attach_link,
  link_of,
}
use network_listener.Scheduler.CoreSession.Building.{
  is_attachable, both_attachable, known, has, Attached, add_interface_lem,
}

module _ {O : Type 0} where
  module _ (probe : Prober) where
    -- the interfaces that a link names are found in those of its nodes that are known
    abbrev pub Resolved : Nodes → Link O → Type 0
    Resolved nodes link =
        (known probe nodes link.node1_id ≡ true → has probe nodes link.node1_id link.iface1 ≡ true)
        × (known probe nodes link.node2_id ≡ true
            → has probe nodes link.node2_id link.iface2 ≡ true)

    abbrev pub AllResolved : Nodes → Links O → Type 0
    AllResolved nodes links = All (λ e. Resolved nodes e.1) links

    -- the nodes stay, and what was resolved stays so
    pub record Linked (link : Link O) (nodes nodes' : Nodes) : Type 0 where
      pub stay : known probe nodes' ≡ known probe nodes
      pub keep : (l : Link O) → Resolved nodes l → Resolved nodes' l
      pub resolved : Resolved nodes' link

  module _ (probe : Prober) (same : FindsSame probe) where
    keep_resolved :
        (nodes nodes' : Nodes)
        → known probe nodes' ≡ known probe nodes
        → ((j k : ℤ) → has probe nodes j k ≡ true → has probe nodes' j k ≡ true)
        → (l : Link O) → Resolved probe nodes l
        → Resolved probe nodes' l
    keep_resolved nodes nodes' stay keep l h = (
      λ k. keep l.node1_id l.iface1 (h.0 (ap (λ (f : ℤ → Bool). f l.node1_id) (sym stay) ∙ k)),
      λ k. keep l.node2_id l.iface2 (h.1 (ap (λ (f : ℤ → Bool). f l.node2_id) (sym stay) ∙ k)),
    )

    pub attach_link_lem :
        (link : CoreLink O) (nodes : Nodes)
        → ((both_attachable (known probe nodes) link ≡ true)
            × Returns (attach_link probe link nodes) (Linked probe (link_of link) nodes))
          ⊎ ((both_attachable (known probe nodes) link ≡ false)
              × (attach_link probe link nodes ≡ panic))
    unfolding attach_link
    attach_link_lem link nodes =
        elim (add_interface_lem probe same link.node1_id link.iface1 nodes) [
          | inr (e, p) ↦ inr (rw e refl, rw p refl)
          | inl (e, (n1, p, a)) ↦
              rw (e, p) (second n1 a (add_interface_lem probe same link.node2_id link.iface2 n1))
        ]
      where
        at_second :
            (n1 : Nodes)
            → Attached probe link.node1_id link.iface1 nodes n1
            → known probe n1 link.node2_id ≡ known probe nodes link.node2_id
        at_second n1 a = ap (λ (f : ℤ → Bool). f link.node2_id) a.stay

        at_first :
            (n1 n2 : Nodes)
            → Attached probe link.node1_id link.iface1 nodes n1
            → Attached probe link.node2_id link.iface2 n1 n2
            → known probe nodes link.node1_id ≡ known probe n2 link.node1_id
        at_first n1 n2 a b = ap (λ (f : ℤ → Bool). f link.node1_id) (sym (b.stay ∙ a.stay))

        second :
            (n1 : Nodes)
            → Attached probe link.node1_id link.iface1 nodes n1
            → ((is_attachable (known probe n1 link.node2_id) link.iface2 ≡ true)
                × Returns
                    (add_interface probe link.node2_id link.iface2 n1)
                    (Attached probe link.node2_id link.iface2 n1))
              ⊎ ((is_attachable (known probe n1 link.node2_id) link.iface2 ≡ false)
                  × (add_interface probe link.node2_id link.iface2 n1 ≡ panic))
            → (((true && is_attachable (known probe nodes link.node2_id) link.iface2) ≡ true)
                × Returns
                    (add_interface probe link.node2_id link.iface2 n1)
                    (Linked probe (link_of link) nodes))
              ⊎ (((true && is_attachable (known probe nodes link.node2_id) link.iface2) ≡ false)
                  × (add_interface probe link.node2_id link.iface2 n1 ≡ panic))
        second n1 a (inl (e, (n2, p, b))) = inl (
          rw (← at_second n1 a) e,
          (
            n2,
            p,
            record {
              stay = b.stay ∙ a.stay;
              keep = λ l h.
                  keep_resolved n1 n2 b.stay b.keep l (keep_resolved nodes n1 a.stay a.keep l h);
              resolved = (
                λ k. b.keep link.node1_id (id_of link.iface1) (a.gain (at_first n1 n2 a b ∙ k)),
                λ k. b.gain (ap (λ (f : ℤ → Bool). f link.node2_id) (sym b.stay) ∙ k),
              );
            },
          ),
        )
        second n1 a (inr (e, p)) = inr (rw (← at_second n1 a) e, p)
