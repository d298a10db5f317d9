-- ===== src/Knowledge/SliceLaws.antt =====
-- The slices of a list of words: what they make up, and how long they are.
use sawtai.Prelude.{
  ℕ, zero, suc, ◌+◌, ◌*◌, ◌≤◌, ◌≡◌, sym, List, [], ◌∷◌, ◌++◌, length, drop, ltb, All, arith,
  Bool-cases, inl, inr,
}
use sawtai.Prelude.Slicing.{take-drop, drop-drop, drop-all, length-take, All-take, All-drop}
use sawtai.Knowledge.Chunks.{slices}

module _ {ℓ} {A : Type ℓ} where
  abbrev pub joined : List (List A) → List A
  joined [] = []
  joined (xs ∷ rest) = xs ++ joined rest

  -- enough fuel: the slices make up all the words from `start` on
  pub joined-slices :
      (fuel start : ℕ) (all : List A)
      → length all ≤ start + 180 * fuel
      → joined (slices fuel start all) ≡ drop start all
  unfolding slices
  joined-slices zero start all h = sym (drop-all start all (omega arith))
  joined-slices (suc fuel) start all h = elim (Bool-cases (ltb start (length all))) [
    | inl more ↦
        rw (more, joined-slices fuel (start + 180) all (omega arith), sym (drop-drop start 180 all))
          (take-drop 180 (drop start all))
    | inr done ↦ rw done (sym (drop-all start all (ground (arith, done))))
  ]

  -- a slice of at most 180 members that satisfy `P`
  abbrev pub IsSlice : (A → Type 0) → List A → Type 0
  IsSlice P xs = All P xs × (length xs ≤ 180)

  pub All-slices :
      (P : A → Type 0) (fuel start : ℕ) (all : List A)
      → All P all
      → All (IsSlice P) (slices fuel start all)
  unfolding slices
  All-slices P zero start all h = tt
  All-slices P (suc fuel) start all h = elim (Bool-cases (ltb start (length all))) [
    | inl more ↦ rw more (
      (All-take P 180 (drop start all) (All-drop P start all h), length-take 180 (drop start all)),
      All-slices P fuel (start + 180) all h,
    )
    | inr done ↦ rw done tt
  ]
