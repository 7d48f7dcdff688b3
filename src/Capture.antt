-- ===== src/Capture.antt =====
-- src/listener/capture.rs: the metadata of the capture device, and the packets that the capture loop
-- hands over. Opening the device and reading frames from it are left out.
use Prim.Native.String.{String}
use network_listener.Prelude.{
  ℕ, Bool, true, false, not, Option, none, some, List, [], ◌∷◌, ◌==◌, ◌&&◌, if◌then◌else◌,
}
use network_listener.Packet.Direction.{MacAddr}
use network_listener.Packet.Ip.{IpAddr, v4, v6, unspecified}
pub mod Meta
pub mod Capturer

-- `libc::timeval`; the second field counts what the capture's precision says
pub record Timeval : Type 0 where
  pub tv_sec : ℕ
  pub tv_usec : ℕ

-- `pcap::PacketHeader` and the captured bytes
pub record OwnedPacket : Type 0 where
  pub ts : Timeval
  pub caplen : ℕ
  pub len : ℕ
  pub bytes : List ℕ

pub record PcapMeta : Type 0 where
  pub mac_addr : MacAddr
  pub ipv4 : ℕ
  pub ipv6 : ℕ
  pub name : String

-- `pcap::Device`
pub record Device : Type 0 where
  pub name : String
  pub addresses : List IpAddr

abbrev or_keep : Option ℕ → ℕ → Option ℕ
or_keep none ip = some ip
or_keep (some old) ip = some old

abbrev both_found : Option ℕ → Option ℕ → Bool
both_found (some a) (some b) = true
both_found _ _ = false

abbrev note_v4 : IpAddr → Option ℕ → Option ℕ
note_v4 (v4 ip) found = or_keep found ip
note_v4 (v6 ip) found = found

abbrev note_v6 : IpAddr → Option ℕ → Option ℕ
note_v6 (v4 ip) found = found
note_v6 (v6 ip) found = or_keep found ip

-- the loop of `new`, which stops when both kinds are found
scan_addresses : List IpAddr → Option ℕ → Option ℕ → Option ℕ × Option ℕ
scan_addresses [] ipv4 ipv6 = (ipv4, ipv6)
scan_addresses (addr ∷ rest) ipv4 ipv6 =
    let ipv4' = note_v4 addr ipv4 in
    let ipv6' = note_v6 addr ipv6 in
    let more = scan_addresses rest ipv4' ipv6' in
    if both_found ipv4' ipv6' then (ipv4', ipv6') else more

abbrev pub or_unspecified : Option ℕ → ℕ
or_unspecified none = unspecified
or_unspecified (some ip) = ip

unfoldable pub new : Device → MacAddr → PcapMeta
unfolding scan_addresses
new device mac_addr =
    let found = scan_addresses device.addresses none none in
    record {
      mac_addr = mac_addr;
      ipv4 = or_unspecified found.0;
      ipv6 = or_unspecified found.1;
      name = device.name;
    }

unfoldable pub matches_ip : PcapMeta → IpAddr → Bool
matches_ip meta (v4 ip) = ip == meta.ipv4
matches_ip meta (v6 ip) = ip == meta.ipv6

unfoldable get_match : PcapMeta → IpAddr → Option IpAddr
get_match meta (v4 ip) = if not (meta.ipv4 == unspecified) then some (v4 meta.ipv4) else none
get_match meta (v6 ip) = if not (meta.ipv6 == unspecified) then some (v6 meta.ipv6) else none

abbrev matches_any : PcapMeta → Option IpAddr → Bool
matches_any meta none = true
matches_any meta (some (v4 ip)) = ip == meta.ipv4
matches_any meta (some (v6 ip)) = ip == meta.ipv6

unfoldable matches : PcapMeta → MacAddr → Option IpAddr → Bool
matches meta mac_addr ip_addr =
    if mac_addr == meta.mac_addr then matches_any meta ip_addr else false
