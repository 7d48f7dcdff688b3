-- ===== src/Tracking/Link/Lookup.antt =====
-- Which link a lookup by an external address finds.
use mathlib.Core.Logic.Or
use mathlib.Core.List.{mem-cons}
use mathlib.Core.Option.{some-injective}
use network_listener.Prelude.{
  ◌≡◌, ◌≢◌, refl, ap, ℕ, ◌++◌, ◌∙◌, true, some, Mem, [], ◌∷◌, All, arith, Bool-cases, inl, inr,
}
use network_listener.Prelude.Double.{Double}
use network_listener.Prelude.HashMap
use network_listener.Prelude.HashMap.{HashMap, Prober}
use network_listener.Packet.Ip.{IpAddr, v4, v6}
use network_listener.Tracking.StreamId
use network_listener.Tracking.StreamId.{
  IpPair, ip_pair_from_packet, ip_pair_hashed, ip_pairable, pair_words,
}
use network_listener.Tracking.StreamManager.{StreamManager}
use network_listener.Tracking.Link.{LinkManager, ext_pair, get_link_by_ext_ip}

first-word :
    (a b : IpAddr) (k : IpPair) → pair_words (StreamId.new a b) ≡ pair_words k → a ≡ k.local
unfolding pair_words StreamId.new
first-word a b k e = words a k.local e
  where
    words :
        (x y : IpAddr)
        → ip_pairable.words x ++ ip_pairable.words b
          ≡ ip_pairable.words y ++ ip_pairable.words k.remote
        → x ≡ y
    words (v4 x) (v4 y) e = ground arith
    words (v6 x) (v6 y) e = ground arith
    words (v4 x) (v6 y) e = ground arith
    words (v6 x) (v4 y) e = ground arith

v4-bits : IpAddr → ℕ
v4-bits (v4 a) = a
v4-bits (v6 a) = a

-- what a search comes to only because other words have the same place
pub record Collides {V : Type 0} (probe : Prober) (wanted : IpPair) (v : V) (m : HashMap IpPair V)
    : Type 0 where
  pub key : IpPair
  pub stored : Mem (key, v) m
  pub words_differ : pair_words wanted ≢ pair_words key
  pub probed : probe (pair_words wanted) (pair_words key) ≡ true

behind :
    {V : Type 0} (probe : Prober) (wanted : IpPair) (v : V) (e : IpPair × V) (m : HashMap IpPair V)
    → Collides probe wanted v m
    → Collides probe wanted v (e ∷ m)
behind probe wanted v e m c = record {
  key = c.key;
  stored = mem-cons.1 (Or.inr c.stored);
  words_differ = c.words_differ;
  probed = c.probed;
}

local-Collides :
    {V : Type 0} (probe : Prober) (ext own : ℕ) (links : HashMap IpPair V) {v : V}
    → All (λ (e : IpPair × V). e.0.local ≡ v4 own) links
    → ext ≢ own
    → HashMap.get probe (StreamId.new (v4 ext) (v4 own)) links ≡ some v
    → Collides probe (StreamId.new (v4 ext) (v4 own)) v links
unfolding HashMap.get v4-bits
local-Collides probe ext own [] all n e = cc
local-Collides probe ext own ((k, w) ∷ rest) {v} (here, all) n e =
    let wanted = StreamId.new (v4 ext) (v4 own) in
    elim (Bool-cases (HashMap.hit probe wanted k)) [
      | inl found ↦
          let same : w ≡ v = some-injective _ _ (rw found at e) in
          record {
            key = k;
            stored = mem-cons.1 (Or.inl (rw same refl));
            words_differ = λ words. n (ap v4-bits (first-word (v4 ext) (v4 own) k words ∙ here));
            probed = ground (arith, found);
          }
      | inr missed ↦
          behind probe wanted v (k, w) rest
            (local-Collides probe ext own rest all n (rw missed at e))
    ]

module _ {F : Type 0} ⦃f : Double F⦄ where
  -- Where the local side of every link is the host's own IPv4 address, whatever the lookup by any
  -- other IPv4 address finds is stored under a key with other words than those looked up: a link is
  -- found only where the hasher leads two different keys to one place.
  pub get_link_by_ext_ip-Collides :
      (probe : Prober) (m : LinkManager F) (ext : ℕ) {sm : StreamManager F}
      → All (λ (e : IpPair × StreamManager F). e.0.local ≡ v4 m.pcap_meta.ipv4) m.links
      → ext ≢ m.pcap_meta.ipv4
      → get_link_by_ext_ip probe m (v4 ext) ≡ some sm
      → Collides probe (ext_pair m.pcap_meta (v4 ext)) sm m.links
  unfolding get_link_by_ext_ip ext_pair
  get_link_by_ext_ip-Collides probe m ext own n found =
      local-Collides probe ext m.pcap_meta.ipv4 m.links own n found
