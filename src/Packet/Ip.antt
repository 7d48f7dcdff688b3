-- ===== src/Packet/Ip.antt =====
-- `std::net::IpAddr`, by the bits of an address, with the tests that the program makes.
use network_listener.Prelude.{ℕ, ◌/◌, ◌^◌, Bool, false, ◌&&◌, ◌==◌, leb}

pub data IpAddr : Type 0 where
  v4 v6 : ℕ → IpAddr

abbrev pub ip_eq : IpAddr → IpAddr → Bool
ip_eq (v4 a) (v4 b) = a == b
ip_eq (v6 a) (v6 b) = a == b
ip_eq _ _ = false

-- `Ipv4Addr::UNSPECIFIED`, `Ipv6Addr::UNSPECIFIED`
abbrev pub unspecified : ℕ
unspecified = 0

-- 127.0.0.0/8 and ::1
unfoldable pub is_loopback : IpAddr → Bool
is_loopback (v4 a) = (a / 2 ^ 24) == 127
is_loopback (v6 a) = a == 1

-- 224.0.0.0/4 and ff00::/8
unfoldable pub is_multicast : IpAddr → Bool
is_multicast (v4 a) = leb 224 (a / 2 ^ 24) && leb (a / 2 ^ 24) 239
is_multicast (v6 a) = (a / 2 ^ 120) == 255
