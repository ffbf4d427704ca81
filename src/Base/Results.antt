-- ===== src/Base/Results.antt =====
use mathlib.Core.Path.{◌≡◌, refl}
use mathlib.Core.Logic.{◌⊎◌, inl, inr}

-- A value or an error.
pub data Result (A E : Type 0) : Type 0 where
  ok : A → Result A E
  error : E → Result A E

-- The rest of a computation, after a step that may fail.
abbrev pub and_then : {A B E : Type 0} → Result A E → (A → Result B E) → Result B E
and_then (ok a) f = f a
and_then (error e) f = error e

pub Result-cases :
    {A E : Type 0} (r : Result A E) → ((a : A) × (r ≡ ok a)) ⊎ ((e : E) × (r ≡ error e))
Result-cases (ok a) = inl (a, refl)
Result-cases (error e) = inr (e, refl)

-- A computation that succeeds has steps that succeed.
pub and_then-ok :
    {A B E : Type 0} (r : Result A E) (f : A → Result B E) {b : B}
    → and_then r f ≡ ok b
    → (a : A) × (r ≡ ok a) × (f a ≡ ok b)
and_then-ok (ok a) f h = (a, refl, h)
and_then-ok (error e) f h = absurd (cc)
