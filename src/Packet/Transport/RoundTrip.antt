-- ===== src/Packet/Transport/RoundTrip.antt =====
-- What `TcpOptions::from_bytes` reads back of options that were written out.
use network_listener.Prelude.{ℕ, ◌/◌, ◌%◌, ◌^◌, ◌≡◌, refl, some, List, [], ◌∷◌, ◌++◌, arith, ◌∙◌}
use network_listener.Packet.Transport.{
  TcpOptions, TcpOption, no_options, mss_option, wscale_option, timestamps_option, be_u32, be_u16,
  read_option, read_options, from_bytes,
}

-- the big-endian bytes of a word
abbrev u32_bytes : ℕ → List ℕ → List ℕ
u32_bytes n rest = (n / 2 ^ 24) ∷ (n / 2 ^ 16 % 256) ∷ (n / 2 ^ 8 % 256) ∷ (n % 256) ∷ rest

abbrev u16_bytes : ℕ → List ℕ → List ℕ
u16_bytes n rest = (n / 2 ^ 8) ∷ (n % 256) ∷ rest

-- the options as a sender writes them: both timestamps, the scale, the segment size
abbrev pub write_options : ℕ → ℕ → ℕ → ℕ → List TcpOption
write_options tsval tsecr scale mss =
    record { number = timestamps_option; payload = u32_bytes tsval (u32_bytes tsecr []) }
    ∷ record { number = wscale_option; payload = scale ∷ [] }
    ∷ record { number = mss_option; payload = u16_bytes mss [] }
    ∷ []

u32-bytes : (n : ℕ) → be_u32 (n / 2 ^ 24) (n / 2 ^ 16 % 256) (n / 2 ^ 8 % 256) (n % 256) ≡ n
u32-bytes n = omega arith

u16-bytes : (n : ℕ) → be_u16 (n / 2 ^ 8) (n % 256) ≡ n
u16-bytes n = omega arith

read_options-append :
    (xs ys : List TcpOption) (o : TcpOptions)
    → read_options (xs ++ ys) o ≡ read_options ys (read_options xs o)
unfolding read_options
read_options-append [] ys o = refl
read_options-append (x ∷ xs) ys o = read_options-append xs ys (read_option x o)

read_options-written :
    (tsval tsecr scale mss : ℕ) (o : TcpOptions)
    → read_options (write_options tsval tsecr scale mss) o
      ≡ record { tsval = some tsval; tsecr = some tsecr; scale = some scale; mss = some mss }
unfolding read_options
read_options-written tsval tsecr scale mss o =
    ground (arith, u32-bytes tsval, u32-bytes tsecr, u16-bytes mss)

-- Of TCP options that end with both timestamps, a scale and a segment size as a sender writes them,
-- the values read are those four, whatever options stand before.
pub from_bytes-write_options :
    (before : List TcpOption) (tsval tsecr scale mss : ℕ)
    → from_bytes (before ++ write_options tsval tsecr scale mss)
      ≡ record { tsval = some tsval; tsecr = some tsecr; scale = some scale; mss = some mss }
unfolding from_bytes
from_bytes-write_options before tsval tsecr scale mss =
    read_options-append before (write_options tsval tsecr scale mss) no_options
    ∙ read_options-written tsval tsecr scale mss (read_options before no_options)
