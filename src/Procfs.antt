-- ===== src/Procfs.antt =====
-- src/listener/procfs_reader.rs: the table of the sockets, and the search for a wireless interface.
-- What procfs and netlink answer is an argument.
use network_listener.Prelude.{
  ℕ, zero, suc, Bool, true, false, ◌&&◌, Option, none, some, List, [], ◌∷◌, ◌++◌, ◌==◌, last,
  if◌then◌else◌,
}
use network_listener.Prelude.HashMap
use network_listener.Prelude.HashMap.{HashMap, Hashed, Prober}
use network_listener.Packet.Ip.{IpAddr}
use network_listener.Packet.Transport.{Protocol, tcp_protocol}
use network_listener.Tracking.StreamId.{
  StreamKey, IpPair, pair_eq, pair_words, key_eq, key_words, ip_pairable, from_ends,
}
pub mod Interfaces

-- `IpNextHeaderProtocols::Udp`
abbrev udp_protocol : Protocol
udp_protocol = 17

-- `TcpNetEntry` and `UdpNetEntry`: of an entry the two addresses
pub record SocketEntry : Type 0 where
  pub local_ip : IpAddr
  pub local_port : ℕ
  pub remote_ip : IpAddr
  pub remote_port : ℕ

pub data NetEntry : Type 0 where
  tcp_entry udp_entry : SocketEntry → NetEntry

abbrev pub NetKey : Type 0
NetKey = StreamKey × IpPair

instance abbrev pub net_key_hashed : Hashed NetKey
net_key_hashed = record {
  equal = λ (a : NetKey) b. key_eq a.0 b.0 && pair_eq a.1 b.1;
  words = λ (a : NetKey). key_words a.0 ++ pair_words a.1;
}

pub record NetStat : Type 0 where
  pub tcp : HashMap NetKey NetEntry
  pub udp : HashMap NetKey NetEntry

unfoldable pub from_net_entry : SocketEntry → Protocol → NetKey
unfolding from_ends
from_net_entry entry protocol =
    from_ends protocol entry.local_ip entry.local_port entry.remote_ip entry.remote_port

-- a table that cannot be read is left out
abbrev readable : Option (List SocketEntry) → List SocketEntry
readable none = []
readable (some entries) = entries

insert_tcp : Prober → List SocketEntry → HashMap NetKey NetEntry → HashMap NetKey NetEntry
unfolding from_net_entry
insert_tcp probe [] m = m
insert_tcp probe (entry ∷ rest) m =
    insert_tcp probe rest
      (HashMap.insert probe (from_net_entry entry tcp_protocol) (tcp_entry entry) m)

insert_udp : Prober → List SocketEntry → HashMap NetKey NetEntry → HashMap NetKey NetEntry
unfolding from_net_entry
insert_udp probe [] m = m
insert_udp probe (entry ∷ rest) m =
    insert_udp probe rest
      (HashMap.insert probe (from_net_entry entry udp_protocol) (udp_entry entry) m)

-- the tables of IPv4 before those of IPv6
unfoldable pub proc_net :
    Prober
    → Option (List SocketEntry)
    → Option (List SocketEntry)
    → Option (List SocketEntry)
    → Option (List SocketEntry)
    → NetStat
unfolding insert_tcp insert_udp
proc_net probe tcp tcp6 udp udp6 = record {
  tcp = insert_tcp probe (readable tcp ++ readable tcp6) [];
  udp = insert_udp probe (readable udp ++ readable udp6) [];
}

-- `get_interface_info`: the two answers of the socket, if it connects and gives both
unfoldable get_interface_info : {S B : Type 0} → Bool → Option S → Option B → Option (S × B)
get_interface_info true (some stations) (some bss) = some (stations, bss)
get_interface_info _ _ _ = none

abbrev same_bytes : List ℕ → List ℕ → Bool
same_bytes [] [] = true
same_bytes (a ∷ s) (b ∷ t) = a == b && same_bytes s t
same_bytes _ _ = false

-- all but the last
abbrev but_last : List ℕ → List ℕ
but_last [] = []
but_last (x ∷ []) = []
but_last (x ∷ y ∷ xs) = x ∷ but_last (y ∷ xs)

abbrev ends_in_nul : Option ℕ → Bool
ends_in_nul none = false
ends_in_nul (some b) = b == 0

unfoldable pub is_device : List ℕ → List ℕ → Bool
is_device device_name interface_name =
    if ends_in_nul (last interface_name)
    then same_bytes (but_last interface_name) device_name
    else same_bytes interface_name device_name

named : List ℕ → Option (List ℕ) → Bool
unfolding is_device
named device_name none = false
named device_name (some name) = is_device device_name name

module _ {I : Type 0} (name_of : I → Option (List ℕ)) where
  -- the interfaces are `none` where the socket gives none; `none` is the error
  search : List ℕ → List I → Option I
  unfolding named
  search device_name [] = none
  search device_name (i ∷ rest) =
      let later = search device_name rest in if named device_name (name_of i) then some i else later

  unfoldable pub get_interface : List ℕ → Option (List I) → Option I
  unfolding search
  get_interface device_name none = none
  get_interface device_name (some interfaces) = search device_name interfaces
