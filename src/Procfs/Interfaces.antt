-- ===== src/Procfs/Interfaces.antt =====
-- Which interface is found by its name.
use network_listener.Prelude.{
  ℕ, zero, suc, ◌≡◌, ◌≢◌, ◌↔◌, ◌⊎◌, inl, inr, refl, ap, sym, ◌∙◌, true, false, Option, none, some,
  List, [], ◌∷◌, ◌++◌, last, All, Bool-cases, arith,
}
use network_listener.Procfs.{
  same_bytes, but_last, ends_in_nul, is_device, named, search, get_interface,
}

same_bytes_iff : (s t : List ℕ) → (same_bytes s t ≡ true) ↔ (s ≡ t)
same_bytes_iff [] [] = (λ e. refl, λ e. refl)
same_bytes_iff (a ∷ s) (b ∷ t) = ground (arith, same_bytes_iff s t)
same_bytes_iff [] (b ∷ t) = (λ e. cc, λ e. cc)
same_bytes_iff (a ∷ s) [] = (λ e. cc, λ e. cc)

-- a list that ends in this byte
last_split : (s : List ℕ) {b : ℕ} → last s ≡ some b → s ≡ but_last s ++ b ∷ []
last_split [] e = cc
last_split (x ∷ []) e = ground (arith)
last_split (x ∷ y ∷ s) e = ap (λ l. x ∷ l) (last_split (y ∷ s) e)

last-append : (s : List ℕ) (b : ℕ) → last (s ++ b ∷ []) ≡ some b
last-append [] b = refl
last-append (x ∷ []) b = refl
last-append (x ∷ y ∷ s) b = last-append (y ∷ s) b

but_last-append : (s : List ℕ) (b : ℕ) → but_last (s ++ b ∷ []) ≡ s
but_last-append [] b = refl
but_last-append (x ∷ []) b = refl
but_last-append (x ∷ y ∷ s) b = ap (λ l. x ∷ l) (but_last-append (y ∷ s) b)

-- the name is that of the device, with or without a zero byte behind it
abbrev pub IsNamed : List ℕ → Option (List ℕ) → Type 0
IsNamed device name = (name ≡ some device) ⊎ (name ≡ some (device ++ 0 ∷ []))

nul_cases :
    (o : Option ℕ)
    → ((ends_in_nul o ≡ true) × (o ≡ some 0)) ⊎ ((ends_in_nul o ≡ false) × (o ≢ some 0))
nul_cases none = inr (refl, λ e. cc)
nul_cases (some zero) = inl (refl, refl)
nul_cases (some (suc b)) = inr (ground arith, λ e. ground arith)

some_eq : (n m : List ℕ) → Option.some n ≡ some m → n ≡ m
some_eq n m e = cc

module _ (device : List ℕ) (no_nul : last device ≢ some 0) where
  is_device_iff :
      (n : List ℕ) → (is_device device n ≡ true) ↔ ((n ≡ device) ⊎ (n ≡ device ++ 0 ∷ []))
  unfolding is_device
  is_device_iff n = elim (nul_cases (last n)) [
    | inl (y, e) ↦
        rw y
          (λ h. inr (last_split n e ∙ ap (λ l. l ++ 0 ∷ []) ((same_bytes_iff _ _).0 h)), stripped e)
    | inr (y, ne) ↦ rw y (λ h. inl ((same_bytes_iff _ _).0 h), whole ne)
  ]
    where
      stripped :
          last n ≡ some 0
          → (n ≡ device) ⊎ (n ≡ device ++ 0 ∷ [])
          → same_bytes (but_last n) device ≡ true
      stripped e (inl same) = absurd (no_nul (ap last (sym same) ∙ e))
      stripped e (inr same) = (same_bytes_iff _ _).1 (ap but_last same ∙ but_last-append device 0)

      whole : last n ≢ some 0 → (n ≡ device) ⊎ (n ≡ device ++ 0 ∷ []) → same_bytes n device ≡ true
      whole ne (inl same) = (same_bytes_iff _ _).1 same
      whole ne (inr same) = absurd (ne (ap last same ∙ last-append device 0))

  named_iff : (name : Option (List ℕ)) → (named device name ≡ true) ↔ IsNamed device name
  unfolding named
  named_iff none = (λ e. cc, λ h. elim h [ inl e ↦ cc | inr e ↦ cc ])
  named_iff (some n) = (
    λ e. elim ((is_device_iff n).0 e) [ inl h ↦ inl (ap some h) | inr h ↦ inr (ap some h) ],
    λ h. elim h [
      | inl e ↦ (is_device_iff n).1 (inl (some_eq n _ e))
      | inr e ↦ (is_device_iff n).1 (inr (some_eq n _ e))
    ],
  )

  module _ {I : Type 0} (name_of : I → Option (List ℕ)) where
    -- Where the socket lists its interfaces, the search ends in the first of them that has the name of
    -- the device, with or without a zero byte behind it, and in an error exactly if there is none.
    pub get_interface_lem :
        (interfaces : List I)
        → ((before : List I) × (i : I) × (after : List I) × (interfaces ≡ before ++ i ∷ after)
            × All (λ j. ¬ IsNamed device (name_of j)) before
            × IsNamed device (name_of i)
            × (get_interface name_of device (some interfaces) ≡ some i))
          ⊎ (All (λ j. ¬ IsNamed device (name_of j)) interfaces
              × (get_interface name_of device (some interfaces) ≡ none))
    unfolding get_interface search
    get_interface_lem [] = inr (tt, refl)
    get_interface_lem (i ∷ rest) = elim (Bool-cases (named device (name_of i))) [
      | inl y ↦ inl ([], i, rest, refl, tt, (named_iff (name_of i)).0 y, rw y refl)
      | inr n ↦ rw n (more (λ h. cc ((named_iff (name_of i)).1 h)) (get_interface_lem rest))
    ]
      where
        more :
            ¬ IsNamed device (name_of i)
            → ((before : List I) × (j : I) × (after : List I) × (rest ≡ before ++ j ∷ after)
                × All (λ j. ¬ IsNamed device (name_of j)) before
                × IsNamed device (name_of j)
                × (search name_of device rest ≡ some j))
              ⊎ (All (λ j. ¬ IsNamed device (name_of j)) rest × (search name_of device rest ≡ none))
            → ((before : List I) × (j : I) × (after : List I) × (i ∷ rest ≡ before ++ j ∷ after)
                × All (λ j. ¬ IsNamed device (name_of j)) before
                × IsNamed device (name_of j)
                × (search name_of device rest ≡ some j))
              ⊎ (All (λ j. ¬ IsNamed device (name_of j)) (i ∷ rest)
                  × (search name_of device rest ≡ none))
        more other (inl (before, j, after, e, a, h, f)) =
            inl (i ∷ before, j, after, ap (λ l. i ∷ l) e, (other, a), h, f)
        more other (inr (a, f)) = inr ((other, a), f)
