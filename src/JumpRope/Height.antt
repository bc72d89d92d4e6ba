-- ===== src/JumpRope/Height.antt =====
-- Heights of new nodes.
use jumprope_rs.Base.{ℕ, zero, suc, ◌+◌, ◌-◌, ◌≤◌, arith, ltb, Bool-cases, inl, inr}
use jumprope_rs.JumpRope.{Rng, random_height_from, random_height, bias, max_height}

abbrev pub first {ℓ κ} : {A : Type ℓ} {B : Type κ} → A × B → A
first (a, b) = a

module _ (G : Rng) where
  random_height_from_lem :
      (left h : ℕ) (s : G.State)
      → (h ≤ first (random_height_from G left h s))
        × (first (random_height_from G left h s) ≤ h + left)
  unfolding random_height_from
  random_height_from_lem zero h s = (omega arith, omega arith)
  random_height_from_lem (suc left) h s = elim (Bool-cases (ltb (G.gen s).0 bias)) [
    | inl t ↦
        rw t (
          let (p, q) = random_height_from_lem left (h + 1) (G.gen s).1 in
          (omega arith, omega arith))
    | inr f ↦ rw f (omega arith, omega arith)
  ]

  -- The height of a new node is at least 1 and at most `MAX_HEIGHT`, whatever bytes the generator
  -- gives.
  pub random_height_lem :
      (s : G.State) → (1 ≤ first (random_height G s)) × (first (random_height G s) ≤ max_height)
  unfolding random_height
  random_height_lem s = random_height_from_lem (max_height - 1) 1 s
