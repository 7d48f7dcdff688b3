-- ===== src/Capture/Meta.antt =====
-- Which of the device's addresses `PCAPMeta` ends up with, and what it then recognises.
use network_listener.Prelude.{ℕ, ◌≡◌, refl, Option, none, some, List, [], ◌∷◌, arith}
use network_listener.Packet.Direction.{MacAddr}
use network_listener.Packet.Ip.{IpAddr, v4, v6}
use network_listener.Capture.{Device, scan_addresses, or_unspecified, new}

-- the first address of each kind
abbrev pub first_v4 : List IpAddr → Option ℕ
first_v4 [] = none
first_v4 (v4 ip ∷ rest) = some ip
first_v4 (v6 ip ∷ rest) = first_v4 rest

abbrev pub first_v6 : List IpAddr → Option ℕ
first_v6 [] = none
first_v6 (v4 ip ∷ rest) = first_v6 rest
first_v6 (v6 ip ∷ rest) = some ip

abbrev or_first : Option ℕ → Option ℕ → Option ℕ
or_first none found = found
or_first (some ip) found = some ip

scan_addresses_lem :
    (addrs : List IpAddr) (a b : Option ℕ)
    → scan_addresses addrs a b ≡ (or_first a (first_v4 addrs), or_first b (first_v6 addrs))
unfolding scan_addresses
scan_addresses_lem [] none none = refl
scan_addresses_lem [] none (some b) = refl
scan_addresses_lem [] (some a) none = refl
scan_addresses_lem [] (some a) (some b) = refl
scan_addresses_lem (v4 ip ∷ rest) none none = scan_addresses_lem rest (some ip) none
scan_addresses_lem (v4 ip ∷ rest) none (some b) = refl
scan_addresses_lem (v4 ip ∷ rest) (some a) none = scan_addresses_lem rest (some a) none
scan_addresses_lem (v4 ip ∷ rest) (some a) (some b) = refl
scan_addresses_lem (v6 ip ∷ rest) none none = scan_addresses_lem rest none (some ip)
scan_addresses_lem (v6 ip ∷ rest) none (some b) = scan_addresses_lem rest none (some b)
scan_addresses_lem (v6 ip ∷ rest) (some a) none = refl
scan_addresses_lem (v6 ip ∷ rest) (some a) (some b) = refl

-- `PCAPMeta::new` takes the first IPv4 and the first IPv6 address of the device, or the unspecified
-- address where there is none, in spite of the early exit from its loop.
pub new-first :
    (device : Device) (mac : MacAddr)
    → ((new device mac).ipv4 ≡ or_unspecified (first_v4 device.addresses))
      × ((new device mac).ipv6 ≡ or_unspecified (first_v6 device.addresses))
unfolding new
new-first device mac = ground (arith, scan_addresses_lem device.addresses none none)
