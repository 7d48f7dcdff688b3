-- ===== src/Parser/Polling.antt =====
-- src/listener/parser.rs: the poller of procfs and netlink, and the window that its samples fill.
use network_listener.Prelude.{
  ℕ, suc, ◌-◌, ◌≤◌, ◌<◌, ◌≡◌, refl, ap, sym, ◌∙◌, inl, inr, Bool, Option, none, some, List, [], ◌∷◌,
  ◌++◌, length, drop, ltb, if◌then◌else◌, Run, ok, panic, ◌>>=◌, arith, append_assoc, append-nil,
  length-append, Bool-cases,
}
use network_listener.Prelude.Int.{ℤ}
use network_listener.Prelude.Double.{Double}
use network_listener.Parser.Handling.{trim-le}
use network_listener.Parser.{Parser, handle_periodic, push_netlink, trim}

-- one round of the poller: what the tables hold, what the socket answers, if it does, and whether the
-- receiver still takes the sample
pub record Poll (N S : Type 0) : Type 0 where
  pub netstat : S
  pub answer : Option N
  pub is_taken : Bool

-- without an index no sample is asked for; an answer that fails is unwrapped
interface_sample : {N : Type 0} → Option ℤ → Option N → Run (Option N)
interface_sample none answer = ok none
interface_sample (some idx) none = panic
interface_sample (some idx) (some info) = ok (some info)

module _ {N S : Type 0} where
  -- the samples that are taken
  unfoldable periodic : Option ℤ → List (Poll N S) → Run (List (Option N × S))
  unfolding interface_sample
  periodic idx [] = ok []
  periodic idx (poll ∷ rest) =
      let more = periodic idx rest in
      do
        interface ← interface_sample idx poll.answer
        (if poll.is_taken
            then (do samples ← more; ok ((interface, poll.netstat) ∷ samples))
            else ok [])

-- `idx`: the index of the interface, if one is found and has one
unfoldable interface_index : Option (Option ℤ) → Option ℤ
interface_index none = none
interface_index (some index) = index

-- the samples that netlink has given
abbrev pub netlink_of : {N S : Type 0} → List (Option N × S) → List N
netlink_of [] = []
netlink_of ((none, netstat) ∷ rest) = netlink_of rest
netlink_of ((some sample, netstat) ∷ rest) = sample ∷ netlink_of rest

-- the last ten
abbrev pub latest : {N : Type 0} → List N → List N
latest xs = drop (length xs - 10) xs

module _ {N : Type 0} where
  trim-short : (window : List N) → length window ≤ 10 → trim window ≡ window
  unfolding trim
  trim-short window h = ground arith

  trim-long : (x : N) (w : List N) → 10 < length (x ∷ w) → trim (x ∷ w) ≡ w
  unfolding trim
  trim-long x w l = ground arith

  latest-short : (window : List N) → length window ≤ 10 → latest window ≡ window
  latest-short window h = rw (zero_diff (length window) h) refl
    where
      zero_diff : (n : ℕ) → n ≤ 10 → n - 10 ≡ 0
      zero_diff n h = omega arith

  -- the last ten of a longer list are those behind its first item
  latest-cons : (x : N) (xs : List N) → 10 ≤ length xs → latest (x ∷ xs) ≡ latest xs
  latest-cons x xs h = rw (suc_diff (length xs) h) refl
    where
      suc_diff : (n : ℕ) → 10 ≤ n → suc n - 10 ≡ suc (n - 10)
      suc_diff n h = omega arith

  latest-trim :
      (window rest : List N)
      → length window ≤ 11
      → latest (trim window ++ rest) ≡ latest (window ++ rest)
  latest-trim [] rest h = rw (trim-short [] (omega arith)) refl
  latest-trim (x ∷ w) rest h = elim (Bool-cases (ltb 10 (length (x ∷ w)))) [
    | inr short ↦ rw (trim-short (x ∷ w) (ground (arith, short))) refl
    | inl long ↦
        let more : 10 < length (x ∷ w) = ground (arith, long) in
        rw (trim-long x w more)
          (sym (latest-cons x (w ++ rest) (omega (arith, length-append w rest, more))))
  ]

module _ {N S F : Type 0} ⦃f : Double F⦄ where
  -- the samples, one after another
  abbrev pub handle_all : Parser N S F → List (Option N × S) → Parser N S F
  handle_all p [] = p
  handle_all p ((netlink, netstat) ∷ rest) = handle_all (handle_periodic p netlink netstat) rest

  -- While the parser takes the samples of the poller one after another, its window holds the last ten
  -- that netlink has given, in order, and all of them while there are no more.
  pub handle_all-netlink_of :
      (samples : List (Option N × S)) (p : Parser N S F)
      → length p.netlink_data ≤ 10
      → (handle_all p samples).netlink_data ≡ latest (p.netlink_data ++ netlink_of samples)
  unfolding handle_periodic push_netlink
  handle_all-netlink_of [] p h =
      rw (append-nil p.netlink_data) (sym (latest-short p.netlink_data h))
  handle_all-netlink_of ((none, netstat) ∷ rest) p h =
      handle_all-netlink_of rest (handle_periodic p none netstat) (trim-le none p.netlink_data h)
      ∙ latest-trim p.netlink_data (netlink_of rest) (omega (arith, h))
  handle_all-netlink_of ((some sample, netstat) ∷ rest) p h =
      handle_all-netlink_of rest (handle_periodic p (some sample) netstat)
        (trim-le (some sample) p.netlink_data h)
      ∙ latest-trim (p.netlink_data ++ sample ∷ []) (netlink_of rest)
          (omega (arith, h, length-append p.netlink_data (sample ∷ [])))
      ∙ ap latest (append_assoc p.netlink_data (sample ∷ []) (netlink_of rest))
