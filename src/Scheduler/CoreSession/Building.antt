-- ===== src/Scheduler/CoreSession/Building.antt =====
-- What attaching the interfaces does to the nodes, and when a session is built.
use mathlib.Core.Path.{fun_ext}
use network_listener.Prelude.{
  ◌≡◌, ◌≢◌, ◌⊎◌, inl, inr, refl, ap, sym, subst, ◌∙◌, Bool, true, false, not, ◌&&◌, ◌||◌, Option,
  none, some, List, [], ◌∷◌, panic, Returns, Bool-cases, arith,
}
use network_listener.Prelude.Int.{ℤ, pos, negsuc}
use network_listener.Prelude.HashMap
use network_listener.Prelude.HashMap.{Prober, FindsSame}
use network_listener.Prelude.HashMap.Laws.{Decides, get-insert_self, get-insert_other}
use network_listener.Scheduler.CoreSession.{
  int_eq, int_hashed, node_pair_hashed, CoreInterface, CoreNode, CoreLink, Node, Nodes, new_node,
  collect_nodes, id_of, with_interface, attach, add_interface,
}

abbrev pub is_some : {A : Type 0} → Option A → Bool
is_some none = false
is_some (some a) = true

pub int_eq_iff : Decides int_hashed
int_eq_iff (pos a) (pos b) = ground arith
int_eq_iff (negsuc a) (negsuc b) = ground arith
int_eq_iff (pos a) (negsuc b) = (λ e. cc, λ e. cc)
int_eq_iff (negsuc a) (pos b) = (λ e. cc, λ e. cc)

-- is the node listed in the description?
abbrev pub listed : List CoreNode → ℤ → Bool
listed [] id = false
listed (node ∷ rest) id = int_eq id node.id || listed rest id

-- a side of a link is attached, unless its node is known and it names no interface
abbrev pub is_attachable : Bool → Option CoreInterface → Bool
is_attachable known iface = not known || is_some iface

abbrev pub both_attachable : {O : Type 0} → (ℤ → Bool) → CoreLink O → Bool
both_attachable known link =
    is_attachable (known link.node1_id) link.iface1
    && is_attachable (known link.node2_id) link.iface2

abbrev pub all_attachable : {O : Type 0} → (ℤ → Bool) → List (CoreLink O) → Bool
all_attachable known [] = true
all_attachable known (link ∷ rest) = both_attachable known link && all_attachable known rest

module _ (probe : Prober) where
  abbrev pub known : Nodes → ℤ → Bool
  known nodes id = is_some (HashMap.get probe id nodes)

  abbrev pub node_has : Option Node → ℤ → Bool
  node_has none iface = false
  node_has (some node) iface = is_some (HashMap.get probe iface node.interfaces)

  -- does the node have the interface?
  abbrev pub has : Nodes → ℤ → ℤ → Bool
  has nodes id iface = node_has (HashMap.get probe id nodes) iface

  -- the nodes stay, none loses an interface, and a known one has the interface in question
  pub record Attached (id : ℤ) (iface : Option CoreInterface) (nodes nodes' : Nodes) : Type 0 where
    pub stay : known nodes' ≡ known nodes
    pub keep : (j k : ℤ) → has nodes j k ≡ true → has nodes' j k ≡ true
    pub gain : known nodes id ≡ true → has nodes' id (id_of iface) ≡ true

or_false : (b : Bool) → (b || false) ≡ b
or_false true = refl
or_false false = refl

or_true : (a b : Bool) → b ≡ true → (a || b) ≡ true
or_true a b h = ground arith

module _ (probe : Prober) (same : FindsSame probe) where
  int_cases : (a b : ℤ) → (a ≡ b) ⊎ ((a ≢ b) × (int_eq a b ≡ false))
  int_cases a b = elim (Bool-cases (int_eq a b)) [
    | inl y ↦ inl ((int_eq_iff a b).0 y)
    | inr n ↦ inr (λ e. cc ((int_eq_iff a b).1 e), n)
  ]

  known-insert :
      (id j : ℤ) (node : Node) (nodes : Nodes)
      → known probe (HashMap.insert probe id node nodes) j ≡ (int_eq j id || known probe nodes j)
  known-insert id j node nodes = elim (int_cases j id) [
    | inl e ↦
        subst
          (λ i.
            known probe (HashMap.insert probe i node nodes) j ≡ (int_eq j i || known probe nodes j))
          e (rw (get-insert_self probe same int_eq_iff j node nodes, (int_eq_iff j j).1 refl) refl)
    | inr (ne, e) ↦ rw (get-insert_other probe same int_eq_iff id j node nodes ne, e) refl
  ]

  known-collect_nodes :
      (list : List CoreNode) (nodes : Nodes) (j : ℤ)
      → known probe (collect_nodes probe list nodes) j ≡ (listed list j || known probe nodes j)
  unfolding collect_nodes
  known-collect_nodes [] nodes j = refl
  known-collect_nodes (node ∷ rest) nodes j = ground (
    arith,
    known-collect_nodes rest (HashMap.insert probe node.id (new_node node) nodes) j,
    known-insert node.id j (new_node node) nodes,
  )

  pub known-all : (list : List CoreNode) → known probe (collect_nodes probe list []) ≡ listed list
  unfolding HashMap.get
  known-all list = fun_ext λ j. known-collect_nodes list [] j ∙ or_false (listed list j)

  has_interface :
      (node : Node) (i : CoreInterface) (k : ℤ)
      → node_has probe (some (with_interface probe node i)) k
        ≡ (int_eq k i.id || node_has probe (some node) k)
  has_interface node i k = elim (int_cases k i.id) [
    | inl e ↦ rw ((int_eq_iff k i.id).1 e) (
        subst (λ j. is_some (HashMap.get probe j (with_interface probe node i).interfaces) ≡ true)
          (sym e) (rw (get-insert_self probe same int_eq_iff i.id _ node.interfaces) refl))
    | inr (ne, e) ↦ rw (get-insert_other probe same int_eq_iff i.id k _ node.interfaces ne, e) refl
  ]

  with_interface-Attached :
      (id : ℤ) (i : CoreInterface) (node : Node) (nodes : Nodes)
      → HashMap.get probe id nodes ≡ some node
      → Attached probe id
          (some i)
          nodes
          (HashMap.insert probe id (with_interface probe node i) nodes)
  with_interface-Attached id i node nodes found = record {
    stay = fun_ext same_keys;
    keep = kept;
    gain = gained;
  }
    where
      nodes' : Nodes
      nodes' = HashMap.insert probe id (with_interface probe node i) nodes

      self : HashMap.get probe id nodes' ≡ some (with_interface probe node i)
      self = get-insert_self probe same int_eq_iff id _ nodes

      same_keys : (j : ℤ) → known probe nodes' j ≡ known probe nodes j
      same_keys j = elim (int_cases j id) [
        | inl e ↦ rw e (rw (self, found) refl)
        | inr (ne, e) ↦ rw (get-insert_other probe same int_eq_iff id j _ nodes ne) refl
      ]

      kept_self : (k : ℤ) → has probe nodes id k ≡ true → has probe nodes' id k ≡ true
      kept_self k h = rw self (has_interface node i k ∙ or_true (int_eq k i.id) _ (rw found at h))

      kept : (j k : ℤ) → has probe nodes j k ≡ true → has probe nodes' j k ≡ true
      kept j k h = elim (int_cases j id) [
        | inl e ↦ rw e (kept_self k (rw e at h))
        | inr (ne, e) ↦ rw (get-insert_other probe same int_eq_iff id j _ nodes ne) h
      ]

      gained : known probe nodes id ≡ true → has probe nodes' id i.id ≡ true
      gained _ = rw self (rw (get-insert_self probe same int_eq_iff i.id _ node.interfaces) refl)

  -- a side that cannot be attached makes the program panic
  pub add_interface_lem :
      (id : ℤ) (iface : Option CoreInterface) (nodes : Nodes)
      → ((is_attachable (known probe nodes id) iface ≡ true)
          × Returns (add_interface probe id iface nodes) (Attached probe id iface nodes))
        ⊎ ((is_attachable (known probe nodes id) iface ≡ false)
            × (add_interface probe id iface nodes ≡ panic))
  unfolding add_interface
  add_interface_lem id iface nodes = go iface (HashMap.get probe id nodes) refl
    where
      go :
          (iface : Option CoreInterface) (found : Option Node)
          → HashMap.get probe id nodes ≡ found
          → ((is_attachable (is_some found) iface ≡ true)
              × Returns (attach probe id iface found nodes) (Attached probe id iface nodes))
            ⊎ ((is_attachable (is_some found) iface ≡ false)
                × (attach probe id iface found nodes ≡ panic))
      go iface none e = inl (
        refl,
        (nodes, refl, record { stay = refl; keep = λ j k h. h; gain = λ h. cc (ap is_some e) }),
      )
      go none (some node) e = inr (refl, refl)
      go (some i) (some node) e = inl (refl, (_, refl, with_interface-Attached id i node nodes e))
