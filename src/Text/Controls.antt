-- ===== src/Text/Controls.antt =====
-- A printable string has no byte of an ASCII control character.
use distributed_fraud_detect.Prelude.{
  ℕ, ◌≤◌, ◌<◌, ◌≡◌, refl, subst, Bool, true, false, not, List, [], ◌∷◌, Option, none, some, inl,
  inr, arith, ltb, every, contains, nat_key, Bool-cases, Option-cases,
}
use distributed_fraud_detect.Text.{
  Text, Pending, runes, runes_from, lead, lead-low, continue, between, is_control,
  is_trimmed_printable,
}

-- A character under way waits for a byte above ASCII.
abbrev Waits : Option Pending → Type 0
Waits none = Unit
Waits (some p) = 0x80 ≤ p.low

abbrev no_controls : List ℕ → Bool
no_controls rs = every (λ r. not (is_control r)) rs

no_controls-tail : (r : ℕ) (rs : List ℕ) → no_controls (r ∷ rs) ≡ true → no_controls rs ≡ true
no_controls-tail r rs h = ground (arith, h)

runes_from-contains :
    (c : ℕ) (st : Option Pending) (s rs : List ℕ)
    → c < 0x20
    → Waits st
    → runes_from st s ≡ some rs
    → no_controls rs ≡ true
    → contains s c ≡ false
unfolding runes_from is_control
runes_from-contains c none [] rs l w h n = refl
runes_from-contains c (some p) [] rs l w h n = refl
runes_from-contains c none (b ∷ s) rs l w h n = elim (Bool-cases (ltb b 0x80)) [
  | inl a ↦ elim (Option-cases (runes_from none s)) [
    | inl e ↦ absurd (ground (arith, h, a, e))
    | inr (more, e) ↦
        let same : rs ≡ b ∷ more = ground (arith, h, a, e) in
        let split : no_controls (b ∷ more) ≡ true = subst (λ r. no_controls r ≡ true) same n in
        ground (
          arith,
          l,
          split,
          runes_from-contains c none s more l tt e (no_controls-tail b more split),
        )
  ]
  | inr a ↦ elim (Option-cases (lead b)) [
    | inl e ↦ absurd (ground (arith, h, a, e))
    | inr (p, e) ↦ ground (
      arith,
      a,
      l,
      runes_from-contains c (some p) s rs l (lead-low b p e) (ground (arith, h, a, e)) n,
    )
  ]
]
runes_from-contains c (some p) (b ∷ s) rs l w h n = elim (Bool-cases (between p.low p.high b)) [
  | inr a ↦ absurd (ground (arith, h, a))
  | inl a ↦ elim (Bool-cases (ltb 1 p.left)) [
    | inl m ↦ ground (
      arith,
      a,
      l,
      w,
      runes_from-contains c (some (continue p b)) s rs l (unfold continue in omega arith)
          (ground (arith, h, a, m)) n,
    )
    | inr m ↦ elim (Option-cases (runes_from none s)) [
      | inl e ↦ absurd (ground (arith, h, a, m, e))
      | inr (more, e) ↦
          let same : rs ≡ (continue p b).bits ∷ more = ground (arith, h, a, m, e) in
          let split : no_controls ((continue p b).bits ∷ more) ≡ true =
            subst (λ r. no_controls r ≡ true) same n in
          ground (
            arith,
            a,
            l,
            w,
            runes_from-contains c none s more l tt e
                (no_controls-tail (continue p b).bits more split),
          )
    ]
  ]
]

pub contains_control :
    (c : ℕ) (s : Text) → c < 0x20 → is_trimmed_printable s ≡ true → contains s c ≡ false
unfolding is_trimmed_printable runes
contains_control c s l h = elim (Option-cases (runes s)) [
  | inl e ↦ absurd (ground (arith, h, e))
  | inr (rs, e) ↦ runes_from-contains c none s rs l tt e (ground (arith, h, e))
]
