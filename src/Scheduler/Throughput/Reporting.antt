-- ===== src/Scheduler/Throughput/Reporting.antt =====
-- What the data points of an event are, in a session that was built.
use network_listener.Prelude.{
  ℕ, ◌+◌, ◌≡◌, inl, inr, refl, sym, ap, append-nil, append_assoc, All-Mem, ◌∙◌, true, List, [], ◌∷◌,
  ◌++◌, Mem, arith, All, All-append, length, length-append, sum_by,
}
use network_listener.Prelude.HashMap.{Prober}
use network_listener.Scheduler.CoreSession.{int_hashed, Link, Links, Session, CoreSession}
use network_listener.Scheduler.CoreSession.Linking.{AllResolved}
use network_listener.Scheduler.CoreSession.Resolving.{Built}
use network_listener.Scheduler.Throughput.{
  InterfaceThroughput, ThroughputDp, on_links, on_event, Clock,
}
use network_listener.Scheduler.Throughput.Naming.{reports, count_reports, Describes, on_link_lem}

module _ {O F : Type 0} (probe : Prober) where
  module _ (session : Session O) (clock : Clock) where
    -- a data point tells of a link of the session that ends at a measured interface
    pub record Tells (thpts : List (InterfaceThroughput F)) (dp : ThroughputDp F) : Type 0 where
      pub thpt : InterfaceThroughput F
      pub measured : Mem thpt thpts
      pub link : Link O
      pub ends : reports probe session thpt link ≡ true
      pub describes : Describes probe session thpt link dp

    -- what a step adds to the batch
    Adds : List (InterfaceThroughput F) → ℕ → List (ThroughputDp F) → List (ThroughputDp F) → Type 0
    Adds thpts n dps dps' =
        (added : List (ThroughputDp F)) × (dps' ≡ dps ++ added)
        × (length added ≡ n)
        × All (Tells thpts) added

    on_links_lem :
        (thpts : List (InterfaceThroughput F)) (thpt : InterfaceThroughput F) (links : Links O)
        (dps : List (ThroughputDp F))
        → Mem thpt thpts
        → AllResolved probe session.nodes links
        → Adds thpts
            (count_reports probe session thpt links)
            dps
            (on_links probe session clock thpt links dps)
    unfolding on_links Adds
    on_links_lem thpts thpt [] dps m h = ([], sym (append-nil dps), refl, tt)
    on_links_lem thpts thpt ((key, link) ∷ rest) dps m h =
        elim (on_link_lem probe session thpt (clock (length dps)) link h.0) [
          | inr (n, e) ↦ rw (n, e) (none_more (on_links_lem thpts thpt rest dps m h.1))
          | inl (y, (dp, e, d)) ↦
              rw (y, e)
                (more dp
                  (record { thpt = thpt; measured = m; link = link; ends = y; describes = d })
                  (on_links_lem thpts thpt rest (dps ++ dp ∷ []) m h.1))
        ]
      where
        none_more :
            Adds thpts
              (count_reports probe session thpt rest)
              dps
              (on_links probe session clock thpt rest dps)
            → Adds thpts
                (0 + count_reports probe session thpt rest)
                dps
                (on_links probe session clock thpt rest dps)
        none_more (added, e, l, a) = (added, e, omega (arith, l), a)

        more :
            (dp : ThroughputDp F)
            → Tells thpts dp
            → Adds thpts
                (count_reports probe session thpt rest)
                (dps ++ dp ∷ [])
                (on_links probe session clock thpt rest (dps ++ dp ∷ []))
            → Adds thpts
                (1 + count_reports probe session thpt rest)
                dps
                (on_links probe session clock thpt rest (dps ++ dp ∷ []))
        more dp t (added, e, l, a) =
            (dp ∷ added, e ∙ append_assoc dps (dp ∷ []) added, omega (arith, l), (t, a))

    on_event-Adds :
        (all thpts : List (InterfaceThroughput F)) (dps : List (ThroughputDp F))
        → All (λ t. Mem t all) thpts
        → AllResolved probe session.nodes session.links
        → Adds all
            (sum_by (λ t. count_reports probe session t session.links) thpts)
            dps
            (on_event probe session clock thpts dps)
    unfolding on_event Adds
    on_event-Adds all [] dps m h = ([], sym (append-nil dps), refl, tt)
    on_event-Adds all (thpt ∷ rest) dps m h =
        more (on_links_lem all thpt session.links dps m.0 h)
          (λ dps'. on_event-Adds all rest dps' m.1 h)
      where
        more :
            Adds all
              (count_reports probe session thpt session.links)
              dps
              (on_links probe session clock thpt session.links dps)
            → ((dps' : List (ThroughputDp F))
                → Adds all
                    (sum_by (λ t. count_reports probe session t session.links) rest)
                    dps'
                    (on_event probe session clock rest dps'))
            → Adds all
                (count_reports probe session thpt session.links
                  + sum_by (λ t. count_reports probe session t session.links) rest)
                dps
                (on_event probe session clock rest
                  (on_links probe session clock thpt session.links dps))
        more (xs, e, l, a) next = join (next (on_links probe session clock thpt session.links dps))
          where
            join :
                Adds all
                  (sum_by (λ t. count_reports probe session t session.links) rest)
                  (on_links probe session clock thpt session.links dps)
                  (on_event probe session clock rest
                    (on_links probe session clock thpt session.links dps))
                → Adds all
                    (count_reports probe session thpt session.links
                      + sum_by (λ t. count_reports probe session t session.links) rest)
                    dps
                    (on_event probe session clock rest
                      (on_links probe session clock thpt session.links dps))
            join (ys, e', l', a') = (
              xs ++ ys,
              e' ∙ ap (λ zs. zs ++ ys) e ∙ append_assoc dps xs ys,
              omega (arith, length-append xs ys, l, l'),
              All-append (Tells all) xs ys a a',
            )

    -- In a session that was built from a description, an event gives exactly one data point for each
    -- measured interface and each link that ends there and whose nodes are both known: no link is
    -- skipped for a missing interface. Each data point names the nodes and interfaces of its link and
    -- carries the throughput that was measured there.
    pub on_event_lem :
        (s : CoreSession O) (thpts : List (InterfaceThroughput F))
        → Built probe s session
        → (length (on_event probe session clock thpts [])
            ≡ sum_by (λ t. count_reports probe session t session.links) thpts)
          × All (Tells thpts) (on_event probe session clock thpts [])
    unfolding Adds
    on_event_lem s thpts b = from_adds (on_event-Adds thpts thpts [] (All-Mem thpts) b.all_resolved)
      where
        from_adds :
            Adds thpts
              (sum_by (λ t. count_reports probe session t session.links) thpts)
              []
              (on_event probe session clock thpts [])
            → (length (on_event probe session clock thpts [])
                ≡ sum_by (λ t. count_reports probe session t session.links) thpts)
              × All (Tells thpts) (on_event probe session clock thpts [])
        from_adds (added, e, l, a) = (rw e l, rw e a)
