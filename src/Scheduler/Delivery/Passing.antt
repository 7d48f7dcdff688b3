-- ===== src/Scheduler/Delivery/Passing.antt =====
-- What the handler, the broadcast, the stream and the server pass on.
use network_listener.Prelude.{ℕ, ◌≡◌, refl, ap, ◌∙◌, true, List, [], ◌∷◌, ◌++◌, map, ltb, Returns}
use network_listener.Prelude.HashMap.{Prober, FindsSame}
use network_listener.Packet.Ip.{IpAddr}
use network_listener.Net.Messages.{DataMsg}
use network_listener.Net.BwClient.{ClientEventResult}
use network_listener.Net.ClientHandler.{
  Clients, World, ClientHandlerEvent, send_data_msg, init_clients, replied, handle,
  start_event_loop,
}
use network_listener.Net.ClientHandler.Initialising.{connect_all_total}
use network_listener.Net.BwServer.{message, stream_data_msg, msg_stream}
use network_listener.Net.BwServer.Streaming.{Delivers, done, got, refusals, stream_data_msg_lem}
use network_listener.Scheduler.Receiving.{taken, client_stream}
use network_listener.Scheduler.Delivery.{broadcasts}

module _ {F : Type 0} where
  broadcasts-replied :
      (results : List ClientEventResult) → broadcasts {F = F} (map replied results ++ []) ≡ []
  broadcasts-replied [] = refl
  broadcasts-replied (r ∷ rs) = broadcasts-replied rs

  module _ (probe : Prober) (same : FindsSame probe) (w : World) (opened : w.is_open ≡ true)
      (receivers : ltb 0 w.receiver_count ≡ true) where
    -- the handler broadcasts the messages in their order, and then connects the addresses
    pub handled_lem :
        (msgs : List (DataMsg F)) (ips : List IpAddr) (clients : Clients)
        → Returns
            (start_event_loop probe
              (map
                (λ (e : ClientHandlerEvent F). (w, e))
                (map send_data_msg msgs ++ init_clients ips ∷ []))
              clients)
            λ (clients', effects). broadcasts effects ≡ msgs
    unfolding start_event_loop handle
    handled_lem [] ips clients =
        let (r, run, _) = connect_all_total probe same w clients ips opened in
        rw run (_, refl, broadcasts-replied r.1)
    handled_lem (msg ∷ msgs) ips clients =
        let (r, run, sent) = handled_lem msgs ips clients in
        rw (receivers, run) (_, refl, ap (λ ms. msg ∷ ms) sent)

  pub streamed_lem :
      (n : ℕ) (msgs : List (DataMsg F))
      → (stream_data_msg (refusals n ++ true ∷ []) true (map message msgs)).2 ≡ msgs
  unfolding msg_stream
  streamed_lem n msgs =
      ap (λ r. r.2) (stream_data_msg_lem n [] msgs (map message msgs) (all-Delivers msgs)).0
      ∙ streamed msgs
    where
      all-Delivers : (ms : List (DataMsg F)) → Delivers ms (map message ms)
      all-Delivers [] = done
      all-Delivers (m ∷ ms) = got m (all-Delivers ms)

      streamed : (ms : List (DataMsg F)) → msg_stream (map message ms) ≡ ms
      streamed [] = refl
      streamed (m ∷ ms) = ap (λ l. m ∷ l) (streamed ms)

  pub passed_lem : (msgs : List (DataMsg F)) → (client_stream (map taken msgs)).0 ≡ msgs
  unfolding client_stream
  passed_lem [] = refl
  passed_lem (m ∷ ms) = ap (λ l. m ∷ l) (passed_lem ms)
