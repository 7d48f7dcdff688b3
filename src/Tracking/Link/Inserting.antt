-- ===== src/Tracking/Link/Inserting.antt =====
-- What inserting a packet and the periodic pass keep.
use network_listener.Prelude.{
  ◌⊎◌, ◌+◌, ◌<◌, ◌≡◌, refl, true, false, Option, none, some, [], ◌∷◌, length, All, Returns, arith,
  SystemTime, Bool-cases, inl, inr,
}
use network_listener.Prelude.Double.{Double}
use network_listener.Prelude.HashMap
use network_listener.Prelude.HashMap.{HashMap, Prober}
use network_listener.Packet.Parsed.{ParsedPacket}
use network_listener.Config.{AppConfig}
use network_listener.Tracking.StreamId.{IpPair, ip_pair_from_packet, ip_pair_hashed, ip_pairable}
use network_listener.Tracking.StreamManager
use network_listener.Tracking.StreamManager.{StreamManager}
use network_listener.Tracking.StreamManager.Recording.{
  IsSoundManager, new-IsSoundManager, record_packet_total,
}
use network_listener.Tracking.StreamManager.Clock.{AllPast}
use network_listener.Tracking.StreamManager.Flushing.{periodic_total}
use network_listener.Tracking.Link.{
  LinkManager, manager_or_new, is_filtered, record_link, insert, each_periodic, periodic,
}

module _ {F : Type 0} ⦃f : Double F⦄ where
  pub record IsSoundLink (sm : StreamManager F) : Type 0 where
    pub sound : IsSoundManager sm
    pub sent_fits : sm.bytes_sent < 4294967296
    pub received_fits : sm.bytes_received < 4294967296

  abbrev pub AllSound : HashMap IpPair (StreamManager F) → Type 0
  AllSound links = All (λ (e : IpPair × StreamManager F). IsSoundLink e.1) links

  new-IsSoundLink : (now : SystemTime) → IsSoundLink (StreamManager.new now)
  unfolding StreamManager.new
  new-IsSoundLink now = record {
    sound = new-IsSoundManager now;
    sent_fits = omega arith;
    received_fits = omega arith;
  }

  pub manager_or_new-IsSoundLink :
      (now : SystemTime) (found : Option (StreamManager F))
      → ((sm : StreamManager F) → found ≡ some sm → IsSoundLink sm)
      → IsSoundLink (manager_or_new now found)
  unfolding manager_or_new
  manager_or_new-IsSoundLink now none h = new-IsSoundLink now
  manager_or_new-IsSoundLink now (some sm) h = h sm refl

  record_link_total :
      (probe : Prober) (now : SystemTime) (m : LinkManager F) (packet : ParsedPacket)
      → AllSound m.links
      → Returns (record_link probe now m packet) λ m'.
        AllSound m'.links
        × (length m'.links
            ≡ length m.links
              + HashMap.grows (HashMap.get probe (ip_pair_from_packet packet) m.links))
        × (m'.vip_links ≡ m.vip_links)
  unfolding record_link
  record_link_total probe now m packet sound =
      let k = ip_pair_from_packet packet in
      let found = HashMap.get probe k m.links in
      let v =
        manager_or_new-IsSoundLink now found
          (λ sm e. HashMap.get-All probe IsSoundLink k m.links sound e) in
      let (sm, run, (s, bs, br, _)) =
        record_packet_total probe (manager_or_new now found) packet v.sound v.sent_fits
          v.received_fits in
      let fits : IsSoundLink sm = record {
        sound = s;
        sent_fits = rw bs (omega arith);
        received_fits = rw br (omega arith);
      } in
      (
        record m { links = HashMap.insert probe k sm m.links },
        rw run,
        (
          HashMap.insert-All probe IsSoundLink k sm m.links fits sound,
          HashMap.length-insert probe k sm m.links,
          refl,
        ),
      )

  -- Inserting a packet where all links are sound never panics and keeps them sound. A packet that
  -- is filtered out changes nothing at all; any other adds a link only if its pair of addresses was
  -- not found.
  pub insert_total :
      (config : AppConfig) (probe : Prober) (now : SystemTime) (m : LinkManager F)
      (packet : ParsedPacket)
      → AllSound m.links
      → Returns (insert config probe now m packet) λ m'.
        AllSound m'.links
        × (((is_filtered config packet ≡ true) × (m' ≡ m))
            ⊎ ((is_filtered config packet ≡ false)
                × (length m'.links
                    ≡ length m.links
                      + HashMap.grows (HashMap.get probe (ip_pair_from_packet packet) m.links))))
  unfolding insert
  insert_total config probe now m packet sound =
      let (m', run, (sound', grown, _)) = record_link_total probe now m packet sound in
      elim (Bool-cases (is_filtered config packet)) [
        | inl dropped ↦ (m, rw dropped, (sound, inl (dropped, refl)))
        | inr kept ↦ (m', rw (kept, run), (sound', inr (kept, grown)))
      ]

  -- no packet of a link lies ahead of the clock
  abbrev pub LinksPast : SystemTime → HashMap IpPair (StreamManager F) → Type 0
  LinksPast now links = All (λ (e : IpPair × StreamManager F). AllPast now e.1.streams) links

  each_periodic_total :
      (now : SystemTime) (links : HashMap IpPair (StreamManager F))
      → AllSound links
      → LinksPast now links
      → Returns (each_periodic now links) λ links'. AllSound links' × (length links' ≡ length links)
  unfolding each_periodic
  each_periodic_total now [] sound past = ([], refl, (tt, refl))
  each_periodic_total now ((k, sm) ∷ rest) (v, sound) (p, past) =
      let (sm', run, (s, _, _, _, bs, br)) = periodic_total now sm v.sound p in
      let (rest', run', (sounds, same)) = each_periodic_total now rest sound past in
      let fits : IsSoundLink sm' = record {
        sound = s;
        sent_fits = rw bs v.sent_fits;
        received_fits = rw br v.received_fits;
      } in
      ((k, sm') ∷ rest', rw (run, run'), ((fits, sounds), omega (arith, same)))

  -- Where all links are sound, the periodic pass over them ends normally if no packet lies ahead of
  -- the clock; it keeps all links, idle ones too, and keeps them sound.
  pub periodic_links_total :
      (now : SystemTime) (m : LinkManager F)
      → AllSound m.links
      → LinksPast now m.links
      → Returns (periodic now m) λ m'. AllSound m'.links × (length m'.links ≡ length m.links)
  unfolding periodic
  periodic_links_total now m sound past =
      let (links', run, kept) = each_periodic_total now m.links sound past in
      (record m { links = links' }, rw run, kept)
