-- ===== src/Search/Work.antt =====
-- The edges that a search may still look at.
use geoverse_map_server.Base.{
  ℕ, zero, suc, ◌+◌, ◌<◌, ◌≡◌, refl, ap, List, [], ◌∷◌, map, length, get_or, set, Bool, true, false,
  arith,
}
use geoverse_map_server.Search.{degrees}

-- The edges of the nodes that are not marked.
abbrev pub remaining : List (List ℕ) → List Bool → ℕ
remaining [] seen = 0
remaining (is ∷ adj) [] = length is + remaining adj []
remaining (is ∷ adj) (true ∷ seen) = remaining adj seen
remaining (is ∷ adj) (false ∷ seen) = length is + remaining adj seen

pub remaining-set :
    (adj : List (List ℕ)) (seen : List Bool) (u : ℕ)
    → u < length seen
    → get_or seen u false ≡ false
    → remaining adj (set seen u true) + length (get_or adj u []) ≡ remaining adj seen
remaining-set [] seen u h f = refl
remaining-set (is ∷ adj) [] u h f = absurd (omega arith)
remaining-set (is ∷ adj) (true ∷ seen) zero h f = absurd (cc)
remaining-set (is ∷ adj) (false ∷ seen) zero h f = omega arith
remaining-set (is ∷ adj) (true ∷ seen) (suc u) h f = remaining-set adj seen u (omega arith) f
remaining-set (is ∷ adj) (false ∷ seen) (suc u) h f =
    omega (arith, remaining-set adj seen u (omega arith) f)

pub remaining-blank :
    {A : Type 0} (adj : List (List ℕ)) (nodes : List A)
    → remaining adj (map (λ _. false) nodes) ≡ degrees adj
remaining-blank [] [] = refl
remaining-blank [] (n ∷ nodes) = refl
remaining-blank {A} (is ∷ adj) [] = ap (λ m. length is + m) (remaining-blank {A = A} adj [])
remaining-blank (is ∷ adj) (n ∷ nodes) = ap (λ m. length is + m) (remaining-blank adj nodes)
