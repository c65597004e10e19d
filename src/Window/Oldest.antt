-- ===== src/Window/Oldest.antt =====
-- `oldestEntityLocked`: the entity that is evicted when the state is full.
use distributed_fraud_detect.Prelude.{
  ℕ, ◌<◌, ◌≡◌, refl, Bool, true, false, ◌&&◌, ◌||◌, ◌⊎◌, inl, inr, [], ◌∷◌, Map, arith, ltb, eqb,
  Bool-cases, contains, keys, length,
}
use distributed_fraud_detect.Text.{Text, text_key, text_beq_iff, is_empty, text_lt}

-- One round of the loop over `lastActive`, on the entity and the time chosen so far.
abbrev replaces : Text → ℕ → Text → ℕ → Bool
replaces entity oldest candidate active =
    is_empty entity || ltb active oldest || (eqb active oldest && text_lt candidate entity)

oldest_from : Text → ℕ → Map Text ℕ → Text
oldest_from entity oldest [] = entity
oldest_from entity oldest ((candidate, active) ∷ rest) =
    elim (replaces entity oldest candidate active) [
      | true ↦ oldest_from candidate active rest
      | false ↦ oldest_from entity oldest rest
    ]

unfoldable pub oldest_entity : Map Text ℕ → Text
unfolding oldest_from
oldest_entity = oldest_from [] 0

oldest_from-mem :
    (entity : Text) (oldest : ℕ) (m : Map Text ℕ)
    → (oldest_from entity oldest m ≡ entity)
      ⊎ (contains (keys m) (oldest_from entity oldest m) ≡ true)
unfolding oldest_from
oldest_from-mem entity oldest [] = inl refl
oldest_from-mem entity oldest ((c, t) ∷ m) = elim (Bool-cases (replaces entity oldest c t)) [
  | inl new ↦
      rw (new, oldest_from)
        (elim (oldest_from-mem c t m) [
          | inl e ↦ inr (ground (arith, e, text_beq_iff c (oldest_from c t m)))
          | inr i ↦ inr (ground (arith, i))
        ])
  | inr old ↦
      rw (old, oldest_from)
        (elim (oldest_from-mem entity oldest m) [ inl e ↦ inl e | inr i ↦ inr (ground (arith, i)) ])
]

-- The chosen entity is one of the map, unless the map is empty.
pub oldest_entity-mem : (m : Map Text ℕ) → 0 < length m → contains (keys m) (oldest_entity m) ≡ true
unfolding oldest_entity
oldest_entity-mem [] h = absurd (omega arith)
oldest_entity-mem ((c, t) ∷ m) h = elim (oldest_from-mem c t m) [
  | inl e ↦ ground (arith, e, text_beq_iff c (oldest_from c t m))
  | inr i ↦ ground (arith, i)
]
