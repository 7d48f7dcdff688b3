-- ===== src/Tracking/StreamManager/Clock.antt =====
-- What the clock decides in `StreamManager::periodic`: which streams are active, and which times make
-- it panic.
use network_listener.Prelude.{
  ◌+◌, ◌-◌, ◌<◌, ◌≤◌, ◌≡◌, refl, true, [], ◌∷◌, All, Run, ok, panic, ◌>>=◌, Returns, arith,
  SystemTime, from_secs, Bool-cases, inl, inr, leb, ltb, ltb→lt, ◌⊎◌,
}
use network_listener.Prelude.HashMap.{HashMap}
use network_listener.Tracking.StreamId.{StreamKey}
use network_listener.Tracking.Tracker.{Tracker}
use network_listener.Tracking.StreamManager.{active_for, is_active, retain_active}

-- no packet lies ahead of the clock
abbrev pub AllPast : SystemTime → HashMap StreamKey Tracker → Type 0
AllPast now m = All (λ (e : StreamKey × Tracker). e.1.last_registered ≤ now) m

abbrev pub SameTimes : HashMap StreamKey Tracker → HashMap StreamKey Tracker → Type 0
SameTimes [] [] = Unit
SameTimes ((k, t) ∷ m) ((k', t') ∷ m') = (t'.last_registered ≡ t.last_registered) × SameTimes m m'
SameTimes _ _ = ⊥

pub is_active_lem :
    (now : SystemTime) (t : Tracker)
    → t.last_registered ≤ now
    → Returns (is_active now t) λ b. (b ≡ true → now < t.last_registered + from_secs 20)
unfolding is_active active_for
is_active_lem now t h = elim (Bool-cases (leb t.last_registered now)) [
  | inl past ↦
      (ltb (now - t.last_registered) (from_secs 20), rw past, λ e. omega (arith, ltb→lt _ _ e))
  | inr ahead ↦ ground arith
]

-- a stream whose last packet lies ahead of the clock
abbrev pub HasAhead : SystemTime → HashMap StreamKey Tracker → Type 0
HasAhead now [] = ⊥
HasAhead now ((k, t) ∷ rest) = (now < t.last_registered) ⊎ HasAhead now rest

is_active-ahead :
    (now : SystemTime) (t : Tracker) → now < t.last_registered → is_active now t ≡ panic
unfolding is_active active_for
is_active-ahead now t h = ground arith

bind_panic {ℓ κ} :
    {A : Type ℓ} {B : Type κ} (m : Run A) (f : A → Run B)
    → ((a : A) → f a ≡ panic)
    → (m >>= f) ≡ panic
bind_panic (ok a) f h = h a
bind_panic panic f h = refl

pub retain_active-ahead :
    (now : SystemTime) (m : HashMap StreamKey Tracker)
    → HasAhead now m
    → retain_active now m ≡ panic
unfolding retain_active
retain_active-ahead now [] h = absurd h
retain_active-ahead now ((k, t) ∷ rest) (inl h) = rw (is_active-ahead now t h) refl
retain_active-ahead now ((k, t) ∷ rest) (inr h) =
    bind_panic (is_active now t) _ (λ b. rw (retain_active-ahead now rest h) refl)

pub SameTimes-AllPast :
    (now : SystemTime) (m m' : HashMap StreamKey Tracker)
    → SameTimes m m'
    → AllPast now m
    → AllPast now m'
SameTimes-AllPast now [] [] s p = tt
SameTimes-AllPast now ((k, t) ∷ m) ((k', t') ∷ m') (e, s) (p, ps) =
    (omega (arith, e, p), SameTimes-AllPast now m m' s ps)
SameTimes-AllPast now [] (_ ∷ _) s p = absurd s
SameTimes-AllPast now (_ ∷ _) [] s p = absurd s

pub SameTimes-HasAhead :
    (now : SystemTime) (m m' : HashMap StreamKey Tracker)
    → SameTimes m m'
    → HasAhead now m
    → HasAhead now m'
SameTimes-HasAhead now [] m' s h = absurd h
SameTimes-HasAhead now ((k, t) ∷ m) ((k', t') ∷ m') (e, s) (inl h) = inl (omega (arith, e, h))
SameTimes-HasAhead now ((k, t) ∷ m) ((k', t') ∷ m') (e, s) (inr h) =
    inr (SameTimes-HasAhead now m m' s h)
SameTimes-HasAhead now (_ ∷ _) [] s h = absurd s
