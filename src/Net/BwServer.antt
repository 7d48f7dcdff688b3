-- ===== src/Net/BwServer.antt =====
-- src/prost_net/bandwidth_server.rs, and the stream to the server of bandwidth_client.rs: what goes
-- through the broadcast of data messages. `M` stands for the message.
use Prim.Native.String.{String}
use network_listener.Prelude.{
  ℕ, suc, ◌+◌, Bool, true, false, Option, none, some, List, [], ◌∷◌, ◌++◌, if◌then◌else◌, Run, ok,
  panic,
}
use network_listener.Tracking.LinkState.{LinkStateProto}
use network_listener.Capture.{PcapMeta}
pub mod Streaming

-- the answered address of a reply stands for its text, a request is its name
pub data PbfMsg (F : Type 0) : Type 0 where
  hello_reply : ℕ → PbfMsg F
  hello_request : String → PbfMsg F
  bandwidth_message : List (LinkStateProto F) → PbfMsg F
  bandwidth_request : String → PbfMsg F

-- the reply keeps the address whose text is sent; the request goes to the event loop
unfoldable say_hello : {F : Type 0} → Bool → PcapMeta → String → Run (ℕ × PbfMsg F)
say_hello is_open meta name = if is_open then ok (meta.ipv4, hello_request name) else panic

unfoldable get_bandwidth : {M : Type 0} → String → Run M
get_bandwidth name = panic

-- what a receiver of the broadcast gets: a message, or that this many were dropped before it
pub data Item (M : Type 0) : Type 0 where
  message : M → Item M
  lagged : ℕ → Item M

-- what a subscriber is sent: a message or a status, with the number that was dropped
pub data Sent (M : Type 0) : Type 0 where
  data_msg : M → Sent M
  internal : ℕ → Sent M

-- how `stream_data_msg` stands: it still tries to connect, or the call has ended
pub data Connection : Type 0 where
  connecting : Connection
  answered : Connection
  failed : Connection

module _ {M : Type 0} where
  abbrev pub out : Item M → Sent M
  out (message msg) = data_msg msg
  out (lagged n) = internal n

  -- the loop of `subscribe_bandwidth`: each item comes with whether the subscriber still receives
  unfoldable pub subscribe_bandwidth : List (Item M × Bool) → List (Sent M)
  subscribe_bandwidth [] = []
  subscribe_bandwidth ((item, receives) ∷ rest) =
      let more = out item ∷ subscribe_bandwidth rest in if receives then more else []

  -- `filter_map` of `stream_data_msg`
  unfoldable pub msg_stream : List (Item M) → List M
  msg_stream [] = []
  msg_stream (message msg ∷ rest) = msg ∷ msg_stream rest
  msg_stream (lagged n ∷ rest) = msg_stream rest

  -- The attempts to connect, whether the call is answered, and the items of the broadcast: how it
  -- stands, the errors that are reported on the way, and the messages that are streamed.
  unfoldable pub stream_data_msg : List Bool → Bool → List (Item M) → Connection × ℕ × List M
  unfolding msg_stream
  stream_data_msg [] is_answered items = (connecting, 0, [])
  stream_data_msg (true ∷ rest) true items = (answered, 0, msg_stream items)
  stream_data_msg (true ∷ rest) false items = (failed, 1, msg_stream items)
  stream_data_msg (false ∷ rest) is_answered items =
      let later = stream_data_msg rest is_answered items in (later.0, suc later.1, later.2)
