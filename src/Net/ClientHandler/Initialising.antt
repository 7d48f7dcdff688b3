-- ===== src/Net/ClientHandler/Initialising.antt =====
-- Which clients there are after new addresses have been connected.
use network_listener.Prelude.{
  ℕ, suc, ◌+◌, ◌≡◌, inl, inr, refl, ap, ◌∙◌, Bool, true, false, not, Option, none, some, List, [],
  ◌∷◌, ◌++◌, map, keep, Bool-cases, ok, panic, Returns, arith, All, length, length-append,
}
use network_listener.Prelude.HashMap
use network_listener.Prelude.HashMap.{Prober, FindsSame}
use network_listener.Prelude.HashMap.Laws.{Decides, get-insert_self, get-insert_other}
use network_listener.Packet.Ip.{IpAddr, v4, ip_eq}
use network_listener.Tracking.StreamId.Pairing.{ip_eq-Decides}
use network_listener.Net.BwClient
use network_listener.Net.BwClient.{
  ClientEventResult, server_connected, server_connect_error, Dial, accepted, rejected, expired,
}
use network_listener.Net.ClientHandler.{
  ip_hashed, Clients, World, Attempt, is_known, spawn_all, replies_of, store_results, connect_all,
}

pub ip-Decides : Decides ip_hashed
ip-Decides = ip_eq-Decides

-- the task that the last successful connection to the address made, if there is one
abbrev pub last_task : IpAddr → List Attempt → Option (Option ℕ) → Option (Option ℕ)
last_task k [] found = found
last_task k ((ip, ok (some task, sent)) ∷ rest) found =
    last_task k rest (elim (ip_eq k ip) [ true ↦ some (some task) | false ↦ found ])
last_task k ((ip, ok (none, sent)) ∷ rest) found = last_task k rest found
last_task k ((ip, panic) ∷ rest) found = last_task k rest found

module _ (probe : Prober) (same : FindsSame probe) where
  get-insert :
      (k ip : IpAddr) (c : Option ℕ) (m : Clients)
      → HashMap.get probe k (HashMap.insert probe ip c m)
        ≡ elim (ip_eq k ip) [ true ↦ some c | false ↦ HashMap.get probe k m ]
  get-insert k ip c m = elim (Bool-cases (ip_eq k ip)) [
    | inl y ↦ rw y (rw ((ip-Decides k ip).0 y) (get-insert_self probe same ip-Decides ip c m))
    | inr n ↦
        rw n (get-insert_other probe same ip-Decides ip k c m (λ e. cc ((ip-Decides k ip).1 e)))
  ]

  -- the connections that are begun while the channel is open
  abbrev Answered : Attempt → Type 0
  Answered a = (d : Dial) × (a.1 ≡ BwClient.new true a.0 d)

  record Stored (results : List Attempt) (m : Clients) (r : Clients × List ClientEventResult)
      : Type 0 where
    tasks : (k : IpAddr) → HashMap.get probe k r.0 ≡ last_task k results (HashMap.get probe k m)
    replies : length (replies_of results) + length r.1 ≡ length results

  not_connected :
      (ip : IpAddr) (rest : List Attempt) (m : Clients)
      → Returns (store_results probe true rest m) (Stored rest m)
      → Returns
          (store_results probe true ((ip, ok (none, [])) ∷ rest) m)
          (Stored ((ip, ok (none, [])) ∷ rest) m)
  unfolding store_results replies_of
  not_connected ip rest m (r, p, t) = (
    (r.0, server_connect_error ∷ r.1),
    rw p refl,
    record { tasks = t.tasks; replies = omega (arith, t.replies) },
  )

  store_results_lem :
      (results : List Attempt) (m : Clients)
      → All Answered results
      → Returns (store_results probe true results m) (Stored results m)
  unfolding store_results replies_of BwClient.new
  store_results_lem [] m h = ((m, []), refl, record { tasks = λ k. refl; replies = refl })
  store_results_lem ((ip, run) ∷ rest) m ((d, e), h) =
      rw e (go d (λ (m' : Clients). store_results_lem rest m' h))
    where
      go :
          (d : Dial)
          → ((m' : Clients) → Returns (store_results probe true rest m') (Stored rest m'))
          → Returns
              (store_results probe true ((ip, BwClient.new true ip d) ∷ rest) m)
              (Stored ((ip, BwClient.new true ip d) ∷ rest) m)
      go (accepted task) ih =
          let (r, p, t) = ih (HashMap.insert probe ip (some task) m) in
          (
            r,
            p,
            record {
              tasks = λ k. t.tasks k ∙ ap (last_task k rest) (get-insert k ip (some task) m);
              replies = omega (arith, t.replies);
            },
          )
      go rejected ih = not_connected ip rest m (ih m)
      go expired ih = not_connected ip rest m (ih m)

  -- what a spawned connection has to do with the clients there are
  record Begun (k : IpAddr) (m : Clients) (results : List Attempt) : Type 0 where
    answered : All Answered results
    unknown :
        is_known (HashMap.get probe k m) ≡ true → All (λ (a : Attempt). ip_eq k a.0 ≡ false) results

  spawn_all-Begun :
      (k : IpAddr) (w : World) (m : Clients) (i : ℕ) (ips : List IpAddr)
      → w.is_open ≡ true
      → Begun k m (spawn_all probe w m i ips)
  unfolding spawn_all
  spawn_all-Begun k w m i [] o = record { answered = tt; unknown = λ _. tt }
  spawn_all-Begun k w m i (ip ∷ ips) o = elim (Bool-cases (is_known (HashMap.get probe ip m))) [
    | inl y ↦ rw y (spawn_all-Begun k w m i ips o)
    | inr n ↦ rw n (more n (spawn_all-Begun k w m (i + 1) ips o))
  ]
    where
      differs :
          is_known (HashMap.get probe ip m) ≡ false
          → is_known (HashMap.get probe k m) ≡ true
          → ip_eq k ip ≡ false
      differs n y = elim (Bool-cases (ip_eq k ip)) [
        | inl e ↦ cc ((ip-Decides k ip).0 e)
        | inr e ↦ e
      ]

      more :
          is_known (HashMap.get probe ip m) ≡ false
          → Begun k m (spawn_all probe w m (i + 1) ips)
          → Begun k m
              ((ip, BwClient.new w.is_open ip (w.dial i ip)) ∷ spawn_all probe w m (i + 1) ips)
      more n b = record {
        answered = ((w.dial i ip, ap (λ o. BwClient.new o ip (w.dial i ip)) o), b.answered);
        unknown = λ y. (differs n y, b.unknown y);
      }

last_task-none :
    (k : IpAddr) (results : List Attempt) (found : Option (Option ℕ))
    → All (λ (a : Attempt). ip_eq k a.0 ≡ false) results
    → last_task k results found ≡ found
last_task-none k [] found h = refl
last_task-none k ((ip, ok (some task, sent)) ∷ rest) found h =
    rw h.0 (last_task-none k rest found h.1)
last_task-none k ((ip, ok (none, sent)) ∷ rest) found h = last_task-none k rest found h.1
last_task-none k ((ip, panic) ∷ rest) found h = last_task-none k rest found h.1

length-map : {A B : Type 0} (f : A → B) (xs : List A) → length (map f xs) ≡ length xs
length-map f [] = refl
length-map f (x ∷ xs) = ap suc (length-map f xs)

module _ (probe : Prober) where
  abbrev pub is_new : Clients → IpAddr → Bool
  is_new m ip = not (is_known (HashMap.get probe ip m))

  -- just the addresses that are no clients yet are connected
  spawn_all-keep :
      (w : World) (m : Clients) (i : ℕ) (ips : List IpAddr)
      → map (λ (a : Attempt). a.0) (spawn_all probe w m i ips) ≡ keep (is_new m) ips
  unfolding spawn_all
  spawn_all-keep w m i [] = refl
  spawn_all-keep w m i (ip ∷ ips) = elim (Bool-cases (is_known (HashMap.get probe ip m))) [
    | inl y ↦ rw y (spawn_all-keep w m i ips)
    | inr n ↦ rw n (ap (λ l. ip ∷ l) (spawn_all-keep w m (i + 1) ips))
  ]

module _ (probe : Prober) (w : World) where
  -- what connecting these addresses leaves.
  pub record Connected (clients : Clients) (ips : List IpAddr)
      (r : Clients × List ClientEventResult) : Type 0 where
    pub begun :
        map (λ (a : Attempt). a.0) (spawn_all probe w clients 0 ips)
        ≡ keep (is_new probe clients) ips
    pub tasks :
        (k : IpAddr)
        → HashMap.get probe k r.0
          ≡ last_task k (spawn_all probe w clients 0 ips) (HashMap.get probe k clients)
    pub kept :
        (k : IpAddr)
        → is_known (HashMap.get probe k clients) ≡ true
        → HashMap.get probe k r.0 ≡ HashMap.get probe k clients
    pub replies : length r.1 ≡ length (keep (is_new probe clients) ips)

module _ (probe : Prober) (same : FindsSame probe) (w : World) where
  -- While the channel of the replies is open, connecting a list of addresses never panics. One
  -- connection is begun for each address that is not a client yet, and for no other, and exactly one
  -- reply is sent for each of them. Afterwards an address has the task of its last connection that
  -- succeeded, and what it had before if there was none; the clients there were are left alone.
  pub connect_all_total :
      (clients : Clients) (ips : List IpAddr)
      → w.is_open ≡ true
      → Returns (connect_all probe w clients ips) (Connected probe w clients ips)
  unfolding connect_all
  connect_all_total clients ips o =
      let results = spawn_all probe w clients 0 ips in
      let (r, p, t) =
        store_results_lem probe same results clients
          (spawn_all-Begun probe same (v4 0) w clients 0 ips o).answered in
      (
        (r.0, replies_of results ++ r.1),
        rw (ap (λ b. store_results probe b results clients) o ∙ p) refl,
        record {
          begun = spawn_all-keep probe w clients 0 ips;
          tasks = t.tasks;
          kept = λ k y.
              t.tasks k
              ∙ last_task-none k results _
                  ((spawn_all-Begun probe same k w clients 0 ips o).unknown y);
          replies = omega (
            arith,
            length-append (replies_of results) r.1,
            t.replies,
            ap length (spawn_all-keep probe w clients 0 ips),
            length-map (λ (a : Attempt). a.0) results,
          );
        },
      )
