-- ===== src/LoadTester/Schedule.antt =====
-- The arrivals of load_tester/main.go: `ArrivalSchedule` and the sender's loop.
use distributed_fraud_detect.Prelude.{
  ℕ, zero, suc, ◌≤◌, ◌≡◌, ◌⊎◌, subst, Bool, true, false, ◌&&◌, List, [], ◌∷◌, inl, inr, arith, ltb,
  if◌then◌else◌, take, All, ℤ, pos, negsuc, Option, none, some, Bool-cases,
}
use distributed_fraud_detect.Float.{Float64}

-- What the schedule uses of math and of float64's conversion: `gap rate u` is -math.Log(u) / rate, `to_duration x` the nanoseconds of x seconds,
-- which an int64 holds up to `limit`. A draw is at most `one`.
pub record Arrivals (A : Type 0) : Type 0 where
  pub smallest : A
  pub one : A
  pub limit : A
  pub gap : A → A → A
  pub to_duration : A → ℕ

module _ {A : Type 0} ⦃float : Float64 A⦄ (arrivals : Arrivals A) where
  -- The loop over the random draws, behind an elapsed time.
  unfoldable pub offsets : A → A → List A → List ℕ
  offsets rate elapsed [] = []
  offsets rate elapsed (u ∷ us) =
      let next =
        float.add elapsed
          (arrivals.gap rate (if float.leb u float.zero then arrivals.smallest else u)) in
      arrivals.to_duration next ∷ offsets rate next us

  -- `ArrivalSchedule` over the draws of its generator; none is its error.
  unfoldable pub arrival_schedule : ℤ → A → List A → Option (List ℕ)
  unfolding offsets
  arrival_schedule (negsuc n) rate draws = none
  arrival_schedule (pos n) rate draws =
      if float.leb rate float.zero then none else some (offsets rate float.zero (take n draws))

  -- The offsets that the sender goes through: it stops at the first behind a duration that is set.
  unfoldable pub sent : ℕ → List ℕ → List ℕ
  sent duration [] = []
  sent duration (o ∷ os) =
      let rest = sent duration os in if ltb 0 duration && ltb duration o then [] else o ∷ rest

  unfoldable pub is_draw : A → Bool
  is_draw u = float.leb u arrivals.one

  -- The elapsed time behind the draws.
  unfoldable pub elapsed_after : A → A → List A → A
  elapsed_after rate elapsed [] = elapsed
  elapsed_after rate elapsed (u ∷ us) =
      elapsed_after rate
        (float.add elapsed
          (arrivals.gap rate (if float.leb u float.zero then arrivals.smallest else u)))
        us

  -- The logarithm of a number above 0 and up to 1 is not positive, and the conversion is monotone
  -- where it does not overflow.
  pub record IsMonotone : Type 0 where
    pub smallest-positive : float.leb arrivals.smallest float.zero ≡ false
    pub smallest-draw : float.leb arrivals.smallest arrivals.one ≡ true
    pub gap-positive :
        (rate u : A)
        → float.ltb float.zero rate ≡ true
        → float.leb u float.zero ≡ false
        → float.leb u arrivals.one ≡ true
        → float.leb float.zero (arrivals.gap rate u) ≡ true
    pub to_duration-mono :
        (x y : A)
        → float.leb float.zero x ≡ true
        → float.leb x y ≡ true
        → float.leb y arrivals.limit ≡ true
        → arrivals.to_duration x ≤ arrivals.to_duration y

  -- From one value on, each is at least the one in front of it.
  unfoldable pub Ascends : ℕ → List ℕ → Type 0
  Ascends low [] = Unit
  Ascends low (x ∷ xs) = (low ≤ x) × Ascends x xs

  drawn_positive :
      (rate u : A)
      → IsMonotone
      → float.ltb float.zero rate ≡ true
      → is_draw u ≡ true
      → float.leb float.zero
          (arrivals.gap rate (if float.leb u float.zero then arrivals.smallest else u))
        ≡ true
  unfolding is_draw
  drawn_positive rate u m r d = elim (Bool-cases (float.leb u float.zero)) [
    | inl e ↦ rw e (m.gap-positive rate arrivals.smallest r m.smallest-positive m.smallest-draw)
    | inr e ↦ rw e (m.gap-positive rate u r e d)
  ]

  elapsed_after-up :
      (rate elapsed : A) (us : List A)
      → IsMonotone
      → float.ltb float.zero rate ≡ true
      → float.leb float.zero elapsed ≡ true
      → All (λ u. is_draw u ≡ true) us
      → float.leb elapsed (elapsed_after rate elapsed us) ≡ true
  unfolding elapsed_after
  elapsed_after-up rate elapsed [] m r z d =
      float.leb_refl elapsed (float.leb-not_nan float.zero elapsed z)
  elapsed_after-up rate elapsed (u ∷ us) m r z d =
      let step = arrivals.gap rate (if float.leb u float.zero then arrivals.smallest else u) in
      let up = float.leb-add_left elapsed step z (drawn_positive rate u m r d.0) in
      let above = float.leb_trans float.zero elapsed (float.add elapsed step) z up in
      float.leb_trans elapsed (float.add elapsed step) (elapsed_after rate elapsed (u ∷ us)) up
        (elapsed_after-up rate (float.add elapsed step) us m r above d.1)

  offsets-Ascends :
      (rate elapsed : A) (us : List A)
      → IsMonotone
      → float.ltb float.zero rate ≡ true
      → float.leb float.zero elapsed ≡ true
      → All (λ u. is_draw u ≡ true) us
      → float.leb (elapsed_after rate elapsed us) arrivals.limit ≡ true
      → Ascends (arrivals.to_duration elapsed) (offsets rate elapsed us)
  unfolding offsets Ascends elapsed_after
  offsets-Ascends rate elapsed [] m r z d l = tt
  offsets-Ascends rate elapsed (u ∷ us) m r z d l =
      let step = arrivals.gap rate (if float.leb u float.zero then arrivals.smallest else u) in
      let next = float.add elapsed step in
      let up = float.leb-add_left elapsed step z (drawn_positive rate u m r d.0) in
      let above = float.leb_trans float.zero elapsed next z up in
      let within =
        float.leb_trans next (elapsed_after rate next us) arrivals.limit
          (elapsed_after-up rate next us m r above d.1) l in
      (m.to_duration-mono elapsed next z up within, offsets-Ascends rate next us m r above d.1 l)

  sent-Ascends :
      (duration low : ℕ) (os : List ℕ)
      → Ascends low os
      → Ascends low (sent duration os)
        × All (λ o. (duration ≡ 0) ⊎ (o ≤ duration)) (sent duration os)
  unfolding sent Ascends
  sent-Ascends duration low [] h = (tt, tt)
  sent-Ascends duration low (o ∷ os) h =
      let rest = sent-Ascends duration o os h.1 in
      elim (Bool-cases (ltb 0 duration && ltb duration o)) [
        | inl e ↦ rw (e, sent) (tt, tt)
        | inr e ↦ rw (e, sent) ((h.0, rest.0), (ground (arith, e), rest.1))
      ]

  Ascends-from_zero : (low : ℕ) (os : List ℕ) → Ascends low os → Ascends 0 os
  unfolding Ascends
  Ascends-from_zero low [] h = tt
  Ascends-from_zero low (o ∷ os) h = (omega arith, h.1)

  take-All :
      (n : ℕ) (us : List A)
      → All (λ u. is_draw u ≡ true) us
      → All (λ u. is_draw u ≡ true) (take n us)
  take-All zero us d = tt
  take-All (suc n) [] d = tt
  take-All (suc n) (u ∷ us) d = (d.0, take-All n us d.1)

  -- At a positive rate, over draws of at most one, and where logarithms and the conversion behave and
  -- the last arrival is in an int64's range: a schedule's arrivals never go back in time, and what the
  -- sender goes through stays within a duration that is set.
  pub arrival_schedule-Ascends :
      (n : ℕ) (rate : A) (draws : List A) (os : List ℕ) (duration : ℕ)
      → IsMonotone
      → float.ltb float.zero rate ≡ true
      → All (λ u. is_draw u ≡ true) draws
      → float.leb (elapsed_after rate float.zero (take n draws)) arrivals.limit ≡ true
      → arrival_schedule (pos n) rate draws ≡ some os
      → Ascends 0 os
        × Ascends 0 (sent duration os)
        × All (λ o. (duration ≡ 0) ⊎ (o ≤ duration)) (sent duration os)
  unfolding arrival_schedule
  arrival_schedule-Ascends n rate draws os duration m r d l h =
      let zero_le = float.leb_refl float.zero float.zero-not_nan in
      let made =
        offsets-Ascends rate float.zero (take n draws) m r zero_le (take-All n draws d) l in
      let up : Ascends 0 os =
        subst (Ascends 0) {x = offsets rate float.zero (take n draws)} (ground (arith, h))
          (Ascends-from_zero (arrivals.to_duration float.zero) _ made) in
      let kept = sent-Ascends duration 0 os up in (up, kept.0, kept.1)
