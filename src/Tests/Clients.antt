-- ===== src/Tests/Clients.antt =====
-- The clients, their handler and the broadcast at concrete inputs.
use network_listener.Prelude.{
  ℕ, ◌+◌, ◌≡◌, refl, true, some, List, [], ◌∷◌, ◌++◌, length, ok, panic, Returns, if◌then◌else◌,
  ◌==◌, not,
}
use network_listener.Packet.Ip.{IpAddr, v4}
use network_listener.Net.BwClient.{
  Instant, ClientEvent, send_hello, stop, connected, disconnected, duration_since_now, Hello,
  replied, refused, timed_out, BwClient, event_loop, Dial, accepted, expired,
}
use network_listener.Net.ClientHandler.{
  Clients, World, ClientHandlerEvent, init_clients, broadcast_hello, Effect, connect_all, handle,
  start_event_loop,
}
use network_listener.Net.ClientHandler
use network_listener.Net.ClientHandler.Initialising.{Connected, connect_all_total}
use network_listener.Net.ClientHandler.Greeting.{all_receive, hellos, broadcast_lem}
use network_listener.Prelude.HashMap
use network_listener.Net.BwClient
use network_listener.Net.BwServer
use network_listener.Net.BwServer.{Item, message, lagged, msg_stream, stream_data_msg}
use network_listener.Net.BwServer.Streaming.{
  Delivers, done, got, dropped, IsPart, lost_of, refusals, stream_data_msg_lem,
}
use network_listener.Tests.Packets.{same_words, same_words-FindsSame}

-- address 20 answers, all others time out
abbrev pub world : World
world = record {
  receives = λ task. not (task == 9);
  is_open = true;
  dial = dial_20;
  receiver_count = 1;
}
  where
    dial_20 : ℕ → IpAddr → Dial
    dial_20 i (v4 a) = if a == 20 then accepted 7 else expired
    dial_20 i other = expired

connect_all_total_example :
    Returns
      (connect_all same_words world [] (v4 20 ∷ v4 30 ∷ []))
      (Connected same_words world [] (v4 20 ∷ v4 30 ∷ []))
connect_all_total_example =
    connect_all_total same_words same_words-FindsSame world [] (v4 20 ∷ v4 30 ∷ []) refl

abbrev handled : List (World × ClientHandlerEvent ℕ)
handled = (world, init_clients (v4 20 ∷ v4 30 ∷ [])) ∷ []

abbrev pub greeted : Clients
greeted = (v4 20, some 7) ∷ []

abbrev effects : List (Effect ℕ)
effects =
    ClientHandler.replied (BwClient.server_connected (v4 20))
    ∷ ClientHandler.replied BwClient.server_connect_error
    ∷ []

handled_is : start_event_loop same_words handled [] ≡ ok (greeted, effects)
unfolding start_event_loop HashMap.get HashMap.insert BwClient.new
handled_is = refl

broadcast_lem_example :
    handle {F = ℕ} same_words world greeted (broadcast_hello "hi")
    ≡ (if all_receive world greeted then ok (some greeted, hellos "hi" greeted) else panic)
broadcast_lem_example =
    broadcast_lem same_words same_words-FindsSame handled greeted effects handled_is world "hi"

-- the first message arrives, the next two are dropped
abbrev items : List (Item ℕ)
items = message 1 ∷ lagged 2 ∷ message 4 ∷ []

items-Delivers : Delivers (1 ∷ 2 ∷ 3 ∷ 4 ∷ []) items
items-Delivers = got 1 (dropped 2 (2 ∷ 3 ∷ []) refl refl (got 4 done))

stream_data_msg_lem_example :
    (stream_data_msg (refusals 3 ++ true ∷ []) true items
      ≡ (BwServer.answered, 3, msg_stream items))
    × IsPart (msg_stream items) (1 ∷ 2 ∷ 3 ∷ 4 ∷ [])
    × (length (msg_stream items) + lost_of items ≡ length {A = ℕ} (1 ∷ 2 ∷ 3 ∷ 4 ∷ []))
stream_data_msg_lem_example = stream_data_msg_lem 3 [] (1 ∷ 2 ∷ 3 ∷ 4 ∷ []) items items-Delivers
