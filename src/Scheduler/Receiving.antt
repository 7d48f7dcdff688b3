-- ===== src/Scheduler/Receiving.antt =====
-- src/scheduler/receiving_server.rs: the server that receives data messages, restarted after a delay
-- that grows, and its handler of a stream.
use network_listener.Prelude.{
  ℕ, ◌+◌, ◌*◌, Option, none, some, List, [], ◌∷◌, ◌++◌, leb, if◌then◌else◌, Duration, from_secs,
}
use Prim.Native.String.{String}
pub mod Backoff
pub mod Forwarding

-- how one run of the tonic server ends
pub data Serve : Type 0 where
  exited failed : Serve

-- where `dispatch_server` stands: it has returned, with an error for an address that cannot be
-- parsed, or it waits to try again, with the delay that comes next
pub data Dispatch : Type 0 where
  invalid_address : Dispatch
  returned : Dispatch
  retrying : Duration → Dispatch

abbrev min_duration : Duration → Duration → Duration
min_duration a b = if leb a b then a else b

-- the state and the delays slept so far, after these runs
unfoldable pub serve_loop : Duration → List Serve → Dispatch × List Duration
serve_loop backoff [] = (retrying backoff, [])
serve_loop backoff (exited ∷ rest) = (returned, [])
serve_loop backoff (failed ∷ rest) =
    let more = serve_loop (min_duration (backoff * 2) (from_secs 30)) rest in
    (more.0, backoff ∷ more.1)

-- the address is `none` where the text with the port is no address
unfoldable pub dispatch_server : Option ℕ → List Serve → Dispatch × List Duration
unfolding serve_loop
dispatch_server none runs = (invalid_address, [])
dispatch_server (some addr) runs = serve_loop (from_secs 3) runs

-- what `stream.message()` gives, and whether the message, if it is one, is taken within two seconds
pub data Arrival (M : Type 0) : Type 0 where
  taken : M → Arrival M
  not_taken : M → Arrival M
  broken : Arrival M

-- the answer to the client, or the status
pub data Reply : Type 0 where
  goodbye : String → Reply
  internal : String → Reply
  stream_error : Reply

module _ {M : Type 0} where
  -- what is sent to the main task, and the reply at the end of the stream
  unfoldable pub client_stream : List (Arrival M) → List M × Reply
  client_stream [] = ([], goodbye "Goodbye!")
  client_stream (taken msg ∷ rest) = let more = client_stream rest in (msg ∷ more.0, more.1)
  client_stream (not_taken msg ∷ rest) = ([], internal "Failed to send message to data receiver")
  client_stream (broken ∷ rest) = ([], stream_error)
