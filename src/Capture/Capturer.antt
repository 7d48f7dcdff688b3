-- ===== src/Capture/Capturer.antt =====
-- src/listener/capture.rs: choosing the device and the loop that captures, and the settings of
-- src/lib.rs. What pcap answers is an argument.
use Prim.Native.String.{String}
use text.Mathlib.Text.{◌==◌}
use network_listener.Prelude.{
  ℕ, ◌+◌, ◌≡◌, ◌⊎◌, inl, inr, refl, ap, Bool, true, false, Option, none, some, List, [], ◌∷◌, ◌++◌,
  if◌then◌else◌,
}
use network_listener.Packet.Direction.{MacAddr}
use network_listener.Packet.Parsed.{Precision}
use network_listener.Config.{AppConfig, TimestampType}
use network_listener.Capture
use network_listener.Capture.{OwnedPacket, PcapMeta, Device}

abbrev promisc : Bool
promisc = true

abbrev immediate_mode : Bool
immediate_mode = true

abbrev timeout : ℕ
timeout = 0

abbrev snaplen : ℕ
snaplen = 60 + 14 + 60

-- `find(|d| d.name == name)`
unfoldable find_device : String → List Device → Option Device
find_device name [] = none
find_device name (d ∷ rest) = if d.name == name then some d else find_device name rest

infixl 5 ◌>>=◌
abbrev ◌>>=◌ : {A B : Type 0} → Option A → (A → Option B) → Option B
none >>= f = none
some a >>= f = f a

-- `none` where the devices cannot be listed
unfoldable device_by_name : Option (List Device) → String → Option Device
unfolding find_device
device_by_name list name = do devices ← list; find_device name devices

-- what pcap and the system answer
pub record Devices : Type 0 where
  pub list : Option (List Device)
  -- an error, no device, or one
  pub lookup : Option (Option Device)
  pub opens : Device → Bool
  pub mac : Option (Option MacAddr)

choose : Devices → Option String → Option Device
unfolding device_by_name
choose os (some name) = device_by_name os.list name
choose os none = os.lookup >>= λ found. found

-- how the capture is set up
pub record Setup : Type 0 where
  pub device : Device
  pub promisc : Bool
  pub immediate_mode : Bool
  pub timeout : ℕ
  pub tstamp_type : TimestampType
  pub precision : Precision
  pub snaplen : ℕ

-- `PacketCapturer::new`; `none` is any of its errors
unfoldable new : AppConfig → Devices → Option String → Option (Setup × PcapMeta)
unfolding choose
new config os name = do
  device ← choose os name
  answer ← if os.opens device then os.mac else none
  mac_addr ← answer
  some (
    record {
      device = device;
      promisc = promisc;
      immediate_mode = immediate_mode;
      timeout = timeout;
      tstamp_type = config.client.tstamp_type;
      precision = config.client.timestamp_precision;
      snaplen = snaplen;
    },
    Capture.new device mac_addr,
  )

-- what `next_packet` gives, and for a frame whether the channel still takes it
pub data Next : Type 0 where
  frame : OwnedPacket → Bool → Next
  error : Next

-- whether the loop goes on, or has returned the error of the channel
pub data Loop : Type 0 where
  running send_failed : Loop

-- the frames that are sent
unfoldable pub capture_loop : List Next → List OwnedPacket × Loop
capture_loop [] = ([], running)
capture_loop (error ∷ rest) = capture_loop rest
capture_loop (frame packet false ∷ rest) = ([], send_failed)
capture_loop (frame packet true ∷ rest) = let more = capture_loop rest in (packet ∷ more.0, more.1)

-- the frames among them
abbrev pub frames_of : List Next → List OwnedPacket
frames_of [] = []
frames_of (frame packet taken ∷ rest) = packet ∷ frames_of rest
frames_of (error ∷ rest) = frames_of rest

-- Errors of the capture are passed over. Either the loop goes on, and every frame that was captured
-- is sent, in its order; or it has returned, and just those are sent that came before the first frame
-- that the channel did not take.
pub capture_loop_lem :
    (nexts : List Next)
    → (((capture_loop nexts).1 ≡ running) × ((capture_loop nexts).0 ≡ frames_of nexts))
      ⊎ (((capture_loop nexts).1 ≡ send_failed)
          × ((before : List Next) × (packet : OwnedPacket) × (rest : List Next) × (nexts
                ≡ before ++ frame packet false ∷ rest)
              × ((capture_loop nexts).0 ≡ frames_of before)))
unfolding capture_loop
capture_loop_lem [] = inl (refl, refl)
capture_loop_lem (frame packet false ∷ rest) = inr (refl, ([], packet, rest, refl, refl))
capture_loop_lem (error ∷ rest) = elim (capture_loop_lem rest) [
  | inl (e, f) ↦ inl (e, f)
  | inr (e, (b, p, r, s, f)) ↦ inr (e, (error ∷ b, p, r, ap (λ l. error ∷ l) s, f))
]
capture_loop_lem (frame packet true ∷ rest) = elim (capture_loop_lem rest) [
  | inl (e, f) ↦ inl (e, ap (λ l. packet ∷ l) f)
  | inr (e, (b, p, r, s, f)) ↦
      inr (
        e,
        (frame packet true ∷ b, p, r, ap (λ l. frame packet true ∷ l) s, ap (λ l. packet ∷ l) f),
      )
]
