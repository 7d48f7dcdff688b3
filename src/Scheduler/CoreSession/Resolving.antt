-- ===== src/Scheduler/CoreSession/Resolving.antt =====
-- What a built session holds, and what its links refer to.
use network_listener.Prelude.{
  ◌≡◌, ◌⊎◌, inl, inr, refl, ap, ◌∙◌, true, false, Option, none, some, List, [], ◌∷◌, panic, Returns,
  Bool-cases, arith, All, All-map,
}
use network_listener.Prelude.HashMap
use network_listener.Prelude.HashMap.{Prober, FindsSame}
use network_listener.Prelude.HashMap.Laws.{Decides, get-insert_self, get-insert_other}
use network_listener.Scheduler.CoreSession.{
  int_hashed, NodePair, node_pair_hashed, CoreLink, CoreSession, Nodes, Links, Link, Session,
  collect_nodes, collect_links, build_session, key_of, link_of,
}
use network_listener.Scheduler.CoreSession.Linking.{Resolved, AllResolved, Linked, attach_link_lem}
use network_listener.Scheduler.CoreSession.Building.{
  int_eq_iff, all_attachable, known, listed, known-all,
}

pub node_pair_eq_iff : Decides node_pair_hashed
node_pair_eq_iff (a, b) (c, d) = ground (arith, int_eq_iff a c, int_eq_iff b d)

module _ {O : Type 0} where
  -- the last of the described links with this key
  abbrev pub last_of : NodePair → List (CoreLink O) → Option (Link O) → Option (Link O)
  last_of key [] found = found
  last_of key (link ∷ rest) found =
      last_of key rest (elim (node_pair_hashed.equal key (key_of link)) [
        | true ↦ some (link_of link)
        | false ↦ found
      ])

  module _ (probe : Prober) where
    record Collected (list : List (CoreLink O)) (nodes : Nodes) (m : Links O) (r : Nodes × Links O)
        : Type 0 where
      stay : known probe r.0 ≡ known probe nodes
      resolved : AllResolved probe r.0 r.1
      stored :
          (key : NodePair) → HashMap.get probe key r.1 ≡ last_of key list (HashMap.get probe key m)

    -- what a session that is built holds.
    pub record Built (s : CoreSession O) (session : Session O) : Type 0 where
      pub nodes_are : known probe session.nodes ≡ listed s.nodes
      pub links_are :
          (key : NodePair) → HashMap.get probe key session.links ≡ last_of key s.links none
      pub all_resolved :
          All (λ (e : NodePair × Link O). Resolved probe session.nodes e.1) session.links

  module _ (probe : Prober) (same : FindsSame probe) where
    get-insert :
        (key : NodePair) (link : CoreLink O) (m : Links O)
        → HashMap.get probe key (HashMap.insert probe (key_of link) (link_of link) m)
          ≡ elim (node_pair_hashed.equal key (key_of link)) [
            | true ↦ some (link_of link)
            | false ↦ HashMap.get probe key m
          ]
    get-insert key link m = elim (Bool-cases (node_pair_hashed.equal key (key_of link))) [
      | inl y ↦ rw y (
          rw ((node_pair_eq_iff key (key_of link)).0 y)
            (get-insert_self probe same node_pair_eq_iff (key_of link) (link_of link) m))
      | inr n ↦ rw n (
          get-insert_other probe same node_pair_eq_iff (key_of link) key (link_of link) m
            (λ e. cc ((node_pair_eq_iff key (key_of link)).1 e)))
    ]

    collect_links_lem :
        (list : List (CoreLink O)) (nodes : Nodes) (m : Links O)
        → AllResolved probe nodes m
        → ((all_attachable (known probe nodes) list ≡ true)
            × Returns (collect_links probe list nodes m) (Collected probe list nodes m))
          ⊎ ((all_attachable (known probe nodes) list ≡ false)
              × (collect_links probe list nodes m ≡ panic))
    unfolding collect_links
    collect_links_lem [] nodes m h =
        inl (refl, ((nodes, m), refl, record { stay = refl; resolved = h; stored = λ key. refl }))
    collect_links_lem (link ∷ rest) nodes m h = elim (attach_link_lem probe same link nodes) [
      | inr (e, p) ↦ inr (rw e refl, rw p refl)
      | inl (e, (n1, p, a)) ↦
          rw (e, p)
            (more n1 a (
              collect_links_lem rest n1 (HashMap.insert probe (key_of link) (link_of link) m)
                (added n1 a)))
    ]
      where
        added :
            (n1 : Nodes)
            → Linked probe (link_of link) nodes n1
            → AllResolved probe n1 (HashMap.insert probe (key_of link) (link_of link) m)
        added n1 a =
            HashMap.insert-All probe (Resolved probe n1) (key_of link) (link_of link) m a.resolved (
              All-map (λ (e : NodePair × Link O). Resolved probe nodes e.1)
                (λ e. Resolved probe n1 e.1) m (λ e r. a.keep e.1 r) h)

        more :
            (n1 : Nodes)
            → Linked probe (link_of link) nodes n1
            → ((all_attachable (known probe n1) rest ≡ true)
                × Returns
                    (collect_links probe rest n1
                      (HashMap.insert probe (key_of link) (link_of link) m))
                    (Collected probe rest n1 (HashMap.insert probe (key_of link) (link_of link) m)))
              ⊎ ((all_attachable (known probe n1) rest ≡ false)
                  × (collect_links probe rest n1
                        (HashMap.insert probe (key_of link) (link_of link) m)
                      ≡ panic))
            → ((all_attachable (known probe nodes) rest ≡ true)
                × Returns
                    (collect_links probe rest n1
                      (HashMap.insert probe (key_of link) (link_of link) m))
                    (Collected probe (link ∷ rest) nodes m))
              ⊎ ((all_attachable (known probe nodes) rest ≡ false)
                  × (collect_links probe rest n1
                        (HashMap.insert probe (key_of link) (link_of link) m)
                      ≡ panic))
        more n1 a (inr (e, p)) = inr (rw (← a.stay) e, p)
        more n1 a (inl (e, (r, p, c))) = inl (
          rw (← a.stay) e,
          (
            r,
            p,
            record {
              stay = c.stay ∙ a.stay;
              resolved = c.resolved;
              stored = λ key. c.stored key ∙ ap (last_of key rest) (get-insert key link m);
            },
          ),
        )

    -- Building a session panics exactly if a link names a node that is listed, and no interface at that
    -- side. Otherwise the nodes are those listed, of the links between the same two nodes the last one
    -- is kept, and each link's interfaces are found in those of its nodes that are known.
    pub build_session_lem :
        (s : CoreSession O)
        → ((all_attachable (listed s.nodes) s.links ≡ true)
            × Returns (build_session probe s) (Built probe s))
          ⊎ ((all_attachable (listed s.nodes) s.links ≡ false) × (build_session probe s ≡ panic))
    unfolding build_session HashMap.get
    build_session_lem s = elim (collect_links_lem s.links (collect_nodes probe s.nodes []) [] tt) [
      | inr (e, p) ↦ inr (rw (← known-all probe same s.nodes) e, rw p refl)
      | inl (e, (r, p, c)) ↦ inl (
        rw (← known-all probe same s.nodes) e,
        (
          record { id = s.id; nodes = r.0; links = r.1 },
          rw p refl,
          record {
            nodes_are = c.stay ∙ known-all probe same s.nodes;
            links_are = c.stored;
            all_resolved = c.resolved;
          },
        ),
      )
    ]
