-- ===== src/Tracking/StreamId/Pairing.antt =====
-- Which packets share a key, and where equality and hashing of pairs disagree.
use network_listener.Prelude.{
  ℕ, ◌≡◌, ◌≢◌, ◌↔◌, ◌⊎◌, inr, refl, ap, sym, ◌∙◌, Bool, true, some, arith, ==_iff,
}
use network_listener.Packet.Direction.{Direction, incoming, outgoing}
use network_listener.Packet.Ip.{IpAddr, v4, v6, ip_eq}
use network_listener.Packet.Transport.{TransportPacket, tcp, udp, icmp, other, get_ip_proto}
use network_listener.Packet.Parsed.{ParsedPacket, ports, get_src_dst_port}
use network_listener.Tracking.StreamId.{
  Pairable, Pair, new, from_direction, pair_eq, pair_words, ip_pair_from_packet, key_from_packet,
  key_of, key_from_direction, ip_pairable, ip_pair_hashed,
}

abbrev pub swap : {T : Type 0} → Pair T → Pair T
swap p = record { local = p.remote; remote = p.local }

-- a test that holds of equal values only
abbrev Decides : {T : Type 0} → (T → T → Bool) → Type 0
Decides {T} eq = (a b : T) → (eq a b ≡ true) ↔ (a ≡ b)

pub ip_eq-Decides : Decides ip_eq
ip_eq-Decides (v4 a) (v4 b) = (λ e. ap v4 ((==_iff a b).0 e), λ e. ground arith)
ip_eq-Decides (v6 a) (v6 b) = (λ e. ap v6 ((==_iff a b).0 e), λ e. ground arith)
ip_eq-Decides (v4 a) (v6 b) = (λ e. cc, λ e. cc)
ip_eq-Decides (v6 a) (v4 b) = (λ e. cc, λ e. cc)

-- Where equality of the sides is decided, two pairs are equal exactly when they hold the same two
-- values, in either order.
pub pair_eq_iff :
    {T : Type 0} ⦃t : Pairable T⦄
    → Decides t.eq
    → (p q : Pair T) → (pair_eq p q ≡ true) ↔ ((p ≡ q) ⊎ (p ≡ swap q))
unfolding pair_eq
pair_eq_iff {T} ⦃t⦄ d p q = (only, λ same. also same)
  where
    only : pair_eq p q ≡ true → (p ≡ q) ⊎ (p ≡ swap q)
    only e = ground (
      arith,
      (d p.local q.local).0,
      (d p.remote q.remote).0,
      (d p.local q.remote).0,
      (d p.remote q.local).0,
    )

    also : (p ≡ q) ⊎ (p ≡ swap q) → pair_eq p q ≡ true
    also same = ground (
      arith,
      (d p.local q.local).1,
      (d p.remote q.remote).1,
      (d p.local q.remote).1,
      (d p.remote q.local).1,
    )

from_direction-answer :
    {T : Type 0} (a b : T) (d d' : Direction)
    → d ≢ d'
    → from_direction a b d ≡ from_direction b a d'
unfolding from_direction
from_direction-answer a b incoming incoming n = absurd (n refl)
from_direction-answer a b incoming outgoing n = refl
from_direction-answer a b outgoing incoming n = refl
from_direction-answer a b outgoing outgoing n = absurd (n refl)

key_of_ports :
    (t : TransportPacket) (d : Direction) (src dst : ℕ)
    → ports t ≡ some (src, dst)
    → key_of t d ≡ key_from_direction (get_ip_proto t) (some src) (some dst) d
unfolding key_of key_from_direction
key_of_ports (tcp s) d src dst e = ground arith
key_of_ports (udp s) d src dst e = ground arith
key_of_ports icmp d src dst e = cc
key_of_ports (other protocol) d src dst e = cc

-- The packets of a connection and the answers to them, with addresses and ports exchanged and seen in
-- the other direction, have the same key and the same pair of addresses.
pub answer-same_key :
    (p q : ParsedPacket) (src dst : ℕ)
    → get_src_dst_port p ≡ some (src, dst)
    → get_src_dst_port q ≡ some (dst, src)
    → get_ip_proto p.transport ≡ get_ip_proto q.transport
    → q.src_ip ≡ p.dst_ip
    → q.dst_ip ≡ p.src_ip
    → p.direction ≢ q.direction
    → (key_from_packet p ≡ key_from_packet q) × (ip_pair_from_packet p ≡ ip_pair_from_packet q)
unfolding key_from_packet ip_pair_from_packet get_src_dst_port key_from_direction
answer-same_key p q src dst a b proto s d n = (
  key_of_ports p.transport p.direction src dst a
      ∙ rw proto (λ i. record {
        ports = from_direction-answer (some src) (some dst) p.direction q.direction n i;
        protocol = get_ip_proto q.transport;
      })
      ∙ sym (key_of_ports q.transport q.direction dst src b),
  rw (s, d) (from_direction-answer p.src_ip p.dst_ip p.direction q.direction n),
)

crossed_words : (a b : IpAddr) → pair_words (new a b) ≡ pair_words (new b a) → a ≡ b
unfolding pair_words new
crossed_words (v4 a) (v4 b) e = ground arith
crossed_words (v6 a) (v6 b) e = ground arith
crossed_words (v4 a) (v6 b) e = ground arith
crossed_words (v6 a) (v4 b) e = ground arith

crossed-eq : (a b : IpAddr) → pair_eq (new a b) (new b a) ≡ true
unfolding new
crossed-eq a b = (pair_eq_iff ip_eq-Decides _ _).1 (inr refl)

-- A packet that the host forwards is seen twice, coming in and going out with the same two
-- different addresses. The two pairs of addresses that it is filed under are equal, and yet they
-- feed different words to the hasher, which a key of a `HashMap` must not.
pub forwarded-words :
    (p q : ParsedPacket)
    → q.src_ip ≡ p.src_ip
    → q.dst_ip ≡ p.dst_ip
    → p.src_ip ≢ p.dst_ip
    → p.direction ≡ incoming
    → q.direction ≡ outgoing
    → let stored = ip_pair_from_packet p in
      let wanted = ip_pair_from_packet q in
      (pair_eq wanted stored ≡ true) × (pair_words wanted ≢ pair_words stored)
unfolding ip_pair_from_packet from_direction
forwarded-words p q s d n i o =
    rw (s, d, i, o) (crossed-eq p.src_ip p.dst_ip, λ e. n (crossed_words p.src_ip p.dst_ip e))
