-- ===== src/Worker/Labels.antt =====
-- What the names and the reason of a result are that pass validVersion and validFallbackReason of
-- serving_plane/worker/worker.go.
use distributed_fraud_detect.Prelude.{
  ℕ, ◌≤◌, ◌≡◌, ◌↔◌, ◌⊎◌, refl, Bool, true, false, not, List, [], ◌∷◌, some, inl, inr, arith, length,
  All, All-map, every_iff, ◌==◌, Bool-cases, Option-cases,
}
use distributed_fraud_detect.Float.{Float64}
use distributed_fraud_detect.Text.{
  Text, text, text_key, text_beq_iff, is_empty, is_printable, is_control, runes,
}
use distributed_fraud_detect.Worker.Types.{
  Score, feature_unavailable, queue_deadline, worker_unavailable,
}
use distributed_fraud_detect.Worker.Validate.{valid_version, valid_fallback}

-- A name of 1 to 64 bytes, in UTF-8 and without control characters.
pub record IsVersion (t : Text) : Type 0 where
  pub shown : 1 ≤ length t
  pub short : length t ≤ 64
  pub printable : (rs : List ℕ) × (runes t ≡ some rs) × All (λ r. is_control r ≡ false) rs

-- No fallback and no reason, or a fallback for one of the three reasons.
abbrev pub IsExplained : Bool → Text → Type 0
IsExplained fallback reason =
    ((fallback ≡ false) × (reason ≡ []))
    ⊎ ((fallback ≡ true)
        × ((reason ≡ text "feature_unavailable")
            ⊎ ((reason ≡ text "queue_deadline") ⊎ (reason ≡ text "worker_unavailable"))))

uncontrolled : (r : ℕ) → not (is_control r) ≡ true → is_control r ≡ false
uncontrolled r h = ground (arith, h)

controlled : (r : ℕ) → is_control r ≡ false → not (is_control r) ≡ true
controlled r h = ground (arith, h)

is_printable-runes :
    (t : Text)
    → is_printable t ≡ true
    → (rs : List ℕ) × (runes t ≡ some rs) × All (λ r. is_control r ≡ false) rs
unfolding is_printable
is_printable-runes t h = elim (Option-cases (runes t)) [
  | inl e ↦ absurd (ground (arith, h, e))
  | inr (rs, e) ↦ (
    rs,
    e,
    All-map (λ r. not (is_control r) ≡ true) (λ r. is_control r ≡ false) uncontrolled rs
        ((every_iff (λ r. not (is_control r)) rs).0 (ground (arith, h, e))),
  )
]

runes-is_printable :
    (t : Text) (rs : List ℕ)
    → runes t ≡ some rs
    → All (λ r. is_control r ≡ false) rs
    → is_printable t ≡ true
unfolding is_printable
runes-is_printable t rs e h =
    let all =
      (every_iff (λ r. not (is_control r)) rs).1
        (All-map (λ r. is_control r ≡ false) (λ r. not (is_control r) ≡ true) controlled rs h) in
    ground (arith, e, all)

is_empty-length : (t : Text) → (is_empty t ≡ false) ↔ (1 ≤ length t)
is_empty-length [] = (λ h. absurd (cc h), λ h. absurd (omega (arith, h)))
is_empty-length (a ∷ t) = (λ h. omega arith, λ h. refl)

pub valid_version-IsVersion : (t : Text) → (valid_version t ≡ true) ↔ IsVersion t
unfolding valid_version
valid_version-IsVersion t = (
  λ h. record {
    shown = (is_empty-length t).0 (ground (arith, h));
    short = ground (arith, h);
    printable = is_printable-runes t (ground (arith, h));
  },
  λ h.
      let shown = (is_empty-length t).1 h.shown in
      let printable = runes-is_printable t h.printable.0 h.printable.1 h.printable.2 in
      ground (arith, shown, h.short, printable),
)

empty_or : (t : Text) → (t ≡ []) ⊎ (is_empty t ≡ false)
empty_or [] = inl refl
empty_or (a ∷ t) = inr refl

pub fallback-IsExplained :
    {A : Type 0} ⦃float : Float64 A⦄ (one minus_one : A) (r : Score A)
    → (valid_fallback one minus_one r ≡ true) ↔ IsExplained r.fallback r.fallback_reason
unfolding valid_fallback
fallback-IsExplained one minus_one r = (
  λ h. elim (empty_or r.fallback_reason) [
    | inl e ↦ inl (ground (arith, h, e), e)
    | inr e ↦ inr (
      ground (arith, h, e),
      elim (Bool-cases (r.fallback_reason == feature_unavailable)) [
        | inl f ↦ inl ((text_beq_iff r.fallback_reason feature_unavailable).0 f)
        | inr f ↦ inr (elim (Bool-cases (r.fallback_reason == queue_deadline)) [
          | inl g ↦ inl ((text_beq_iff r.fallback_reason queue_deadline).0 g)
          | inr g ↦
              inr
                ((text_beq_iff r.fallback_reason worker_unavailable).0 (ground (arith, h, e, f, g)))
        ])
      ],
    )
  ],
  λ h. elim h [
    | inl (f, e) ↦ rw (f, e) refl
    | inr (f, inl e) ↦ rw (f, e) refl
    | inr (f, inr (inl e)) ↦ rw (f, e) refl
    | inr (f, inr (inr e)) ↦ rw (f, e) refl
  ],
)
