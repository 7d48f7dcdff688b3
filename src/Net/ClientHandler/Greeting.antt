-- ===== src/Net/ClientHandler/Greeting.antt =====
-- Which clients a broadcast reaches, and what the handler keeps of its clients.
use Prim.Native.String.{String}
use network_listener.Prelude.{
  ℕ, ◌≡◌, ◌≢◌, inl, inr, refl, Bool, true, false, ◌&&◌, Option, none, some, List, [], ◌∷◌, ◌++◌,
  map, Bool-cases, if◌then◌else◌, ok, panic, ◌>>=◌, >>=-eq-ok, ok-injective, subst, All,
}
use network_listener.Prelude.HashMap
use network_listener.Prelude.HashMap.{Prober, FindsSame}
use network_listener.Prelude.HashMap.Distinct.{Distinct, insert-Distinct, get-Distinct}
use network_listener.Packet.Ip.{IpAddr}
use network_listener.Net.BwClient.{ClientEventResult}
use network_listener.Net.ClientHandler.{
  ip_hashed, Clients, ClientHandlerEvent, init_clients, broadcast_hello, send_hello, stop,
  do_iperf3, do_pathload_test, send_data_msg, Effect, hello_to, World, Attempt, greet, greet_all,
  hello, handle, store_results, connect_all, spawn_all, continue, start_event_loop,
}
use network_listener.Net.ClientHandler.Initialising.{ip-Decides}

-- the clients have different addresses, and all have been initiated
pub record IsHandler (m : Clients) : Type 0 where
  pub distinct : Distinct m
  pub initiated : All (λ (e : IpAddr × Option ℕ). e.1 ≢ none) m

-- do all these tasks still receive?
abbrev pub all_receive : World → Clients → Bool
all_receive w [] = true
all_receive w ((ip, none) ∷ m) = all_receive w m
all_receive w ((ip, some task) ∷ m) = w.receives task && all_receive w m

-- one hello for each client
abbrev pub hellos : {F : Type 0} → String → Clients → List (Effect F)
hellos message [] = []
hellos message ((ip, none) ∷ m) = hellos message m
hellos message ((ip, some task) ∷ m) = hello_to task message ∷ hellos message m

prepend :
    {F : Type 0} (b : Bool) (before after : List (Effect F))
    → ((if b then ok after else panic) >>= λ more. ok (before ++ more))
      ≡ (if b then ok (before ++ after) else panic)
prepend true before after = refl
prepend false before after = refl

module _ (probe : Prober) (same : FindsSame probe) where
  insert-IsHandler :
      (ip : IpAddr) (task : ℕ) (m : Clients)
      → IsHandler m
      → IsHandler (HashMap.insert probe ip (some task) m)
  insert-IsHandler ip task m h = record {
    distinct = insert-Distinct probe same ip-Decides ip (some task) m h.distinct;
    initiated = HashMap.insert-All probe (λ c. c ≢ none) ip (some task) m (λ e. cc) h.initiated;
  }

  store_results-IsHandler :
      (is_open : Bool) (results : List Attempt) (m : Clients) (r : Clients × List ClientEventResult)
      → store_results probe is_open results m ≡ ok r
      → IsHandler m
      → IsHandler r.0
  unfolding store_results
  store_results-IsHandler is_open [] m r e h =
      subst (λ (x : Clients × List ClientEventResult). IsHandler x.0) (ok-injective e) h
  store_results-IsHandler is_open ((ip, ok (some task, sent)) ∷ rest) m r e h =
      store_results-IsHandler is_open rest (HashMap.insert probe ip (some task) m) r e
        (insert-IsHandler ip task m h)
  store_results-IsHandler false ((ip, ok (none, sent)) ∷ rest) m r e h = cc
  store_results-IsHandler true ((ip, ok (none, sent)) ∷ rest) m r e h =
      let (q, p, f) = >>=-eq-ok (store_results probe true rest m) _ e in
      subst (λ (x : Clients × List ClientEventResult). IsHandler x.0) (ok-injective f)
        (store_results-IsHandler true rest m q p h)
  store_results-IsHandler false ((ip, panic) ∷ rest) m r e h = cc
  store_results-IsHandler true ((ip, panic) ∷ rest) m r e h =
      let (q, p, f) = >>=-eq-ok (store_results probe true rest m) _ e in
      subst (λ (x : Clients × List ClientEventResult). IsHandler x.0) (ok-injective f)
        (store_results-IsHandler true rest m q p h)

module _ {F : Type 0} (probe : Prober) (same : FindsSame probe) where
  greet_all_lem :
      (w : World) (message : String) (m l : Clients)
      → All (λ (e : IpAddr × Option ℕ). HashMap.get probe e.0 m ≡ some e.1) l
      → greet_all {F = F} probe w m (map (λ (e : IpAddr × Option ℕ). e.0) l) message
        ≡ (if all_receive w l then ok (hellos message l) else panic)
  unfolding greet_all hello
  greet_all_lem w message m [] h = refl
  greet_all_lem w message m ((ip, none) ∷ l) h =
      rw (h.0, greet_all_lem w message m l h.1) (prepend (all_receive w l) [] (hellos message l))
  greet_all_lem w message m ((ip, some task) ∷ l) h = elim (Bool-cases (w.receives task)) [
    | inl y ↦
        rw (h.0, y, greet_all_lem w message m l h.1)
          (prepend (all_receive w l) (hello_to task message ∷ []) (hellos message l))
    | inr n ↦ rw (h.0, n) refl
  ]

  -- what the loop goes on with
  abbrev Next : Option Clients × List (Effect F) → Type 0
  Next (none, done) = Unit
  Next (some m, done) = IsHandler m

  handle-IsHandler :
      (w : World) (m : Clients) (event : ClientHandlerEvent F)
      (r : Option Clients × List (Effect F))
      → handle probe w m event ≡ ok r
      → IsHandler m
      → Next r
  unfolding handle connect_all
  handle-IsHandler w m (send_hello ip message) r e h =
      let (q, p, f) = >>=-eq-ok (greet probe w m ip message) _ e in subst Next (ok-injective f) h
  handle-IsHandler w m stop r e h = subst Next (ok-injective e) tt
  handle-IsHandler w m (init_clients ips) r e h =
      let (q, p, f) = >>=-eq-ok (connect_all probe w m ips) _ e in
      let (q', p', f') =
        >>=-eq-ok (store_results probe w.is_open (spawn_all probe w m 0 ips) m) _ p in
      subst Next (ok-injective f) (
        subst (λ (x : Clients × List ClientEventResult). IsHandler x.0) (ok-injective f')
          (store_results-IsHandler probe same w.is_open (spawn_all probe w m 0 ips) m q' p' h))
  handle-IsHandler w m (broadcast_hello message) r e h =
      let (q, p, f) =
        >>=-eq-ok (greet_all probe w m (map (λ (e : IpAddr × Option ℕ). e.0) m) message) _ e in
      subst Next (ok-injective f) h
  handle-IsHandler w m (do_iperf3 ip port duration) r e h = subst Next (ok-injective e) h
  handle-IsHandler w m (do_pathload_test ip) r e h = subst Next (ok-injective e) h
  handle-IsHandler w m (send_data_msg bw) r e h = subst Next (ok-injective e) h

  loop-IsHandler :
      (events : List (World × ClientHandlerEvent F)) (m : Clients) (r : Clients × List (Effect F))
      → start_event_loop probe events m ≡ ok r
      → IsHandler m
      → IsHandler r.0
  unfolding start_event_loop
  loop-IsHandler [] m r e h =
      subst (λ (x : Clients × List (Effect F)). IsHandler x.0) (ok-injective e) h
  loop-IsHandler ((w, event) ∷ rest) m r e h =
      let (q, p, f) = >>=-eq-ok (handle probe w m event) _ e in
      go q f (handle-IsHandler w m event q p h) (λ (m' : Clients) r'. loop-IsHandler rest m' r')
    where
      go :
          (q : Option Clients × List (Effect F))
          → continue (start_event_loop probe rest) m q.0 q.1 ≡ ok r
          → Next q
          → ((m' : Clients) (r' : Clients × List (Effect F))
              → start_event_loop probe rest m' ≡ ok r'
              → IsHandler m'
              → IsHandler r'.0)
          → IsHandler r.0
      go (none, done) f n ih =
          subst (λ (x : Clients × List (Effect F)). IsHandler x.0) (ok-injective f) h
      go (some m', done) f n ih =
          let (r', p', f') = >>=-eq-ok (start_event_loop probe rest m') _ f in
          subst (λ (x : Clients × List (Effect F)). IsHandler x.0) (ok-injective f') (ih m' r' p' n)

  -- Whatever events the handler has taken since it was started, and however connections and calls
  -- ended: a broadcast sends exactly one hello to each of its clients, in the order of the map, and
  -- changes none of them; but if the task of just one client has ended, the handler panics.
  pub broadcast_lem :
      (events : List (World × ClientHandlerEvent F)) (m : Clients) (done : List (Effect F))
      → start_event_loop probe events [] ≡ ok (m, done)
      → (w : World) (message : String)
      → handle {F = F} probe w m (broadcast_hello message)
        ≡ (if all_receive w m then ok (some m, hellos message m) else panic)
  unfolding handle
  broadcast_lem events m done e w message =
      rw
        (greet_all_lem w message m m (
          get-Distinct probe same ip-Decides m
            (loop-IsHandler events [] (m, done) e
              (record { distinct = tt; initiated = tt })).distinct))
        (last (all_receive w m))
    where
      last :
          (b : Bool)
          → (◌>>=◌ {B = Option Clients × List (Effect F)}
              (if b then ok (hellos message m) else panic)
              (λ sent. ok (some m, sent)))
            ≡ (if b then ok (some m, hellos message m) else panic)
      last true = refl
      last false = refl
