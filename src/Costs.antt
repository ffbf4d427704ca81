-- ===== src/Costs.antt =====
-- The costs of internal/algo/network/search.go: the `float64` values from 0 to +Inf, as the search
-- uses them. NaN is not one of them, and a negative cost is not; the sums keep no law of the real
-- numbers but that they grow and respect the order, which rounding keeps too.
use geoverse_map_server.Base.{◌≡◌, inl, inr, Bool, true, false, Bool-cases}

-- `lt` is `<` of the floats and `add` is `+`.
pub record Costs : Type 1 where
  pub Cost : Type 0
  pub origin : Cost
  pub infinite : Cost
  pub add : Cost → Cost → Cost
  pub lt : Cost → Cost → Bool
  pub asym : (a b : Cost) → lt a b ≡ true → lt b a ≡ false
  pub le_trans : (a b c : Cost) → lt b a ≡ false → lt c b ≡ false → lt c a ≡ false
  pub le_origin : (a : Cost) → lt a origin ≡ false
  pub le_infinite : (a : Cost) → lt infinite a ≡ false
  pub le_add : (a w : Cost) → lt (add a w) a ≡ false
  pub add_le : (a b w : Cost) → lt b a ≡ false → lt (add b w) (add a w) ≡ false

module _ (k : Costs) where
  open k use {Cost, lt, asym, le_trans}

  -- `a ≤ b`
  abbrev pub Le : Cost → Cost → Type 0
  Le a b = lt b a ≡ false

  pub le_refl : (a : Cost) → Le a a
  le_refl a = elim (Bool-cases (lt a a)) [ inl e ↦ asym a a e | inr e ↦ e ]
