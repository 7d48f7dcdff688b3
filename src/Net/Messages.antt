-- ===== src/Net/Messages.antt =====
-- The data message of src/proto/bandwidth.proto, which the client sends and the scheduler stores.
use Prim.Native.String.{String}
use network_listener.Prelude.{List}
use network_listener.Tracking.LinkState.{LinkStateProto, RttMessage, PgmDps}

pub data DataMsg (F : Type 0) : Type 0 where
  empty : DataMsg F
  bandwidth : List (LinkStateProto F) → DataMsg F
  hello : String → DataMsg F
  rtts : List (RttMessage F) → DataMsg F
  pgmmsg : List (PgmDps F) → DataMsg F
