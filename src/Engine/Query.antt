-- ===== src/Engine/Query.antt =====
-- A query finds exactly the features whose bounds meet it.
use geoverse_map_server.Base.{
  ℕ, ◌≡◌, ◌↔◌, ◌⊎◌, inl, inr, refl, ◌∙◌, ap, List, [], ◌∷◌, ◌++◌, get_or, subst, Bool, true,
  if◌then◌else◌, Bool-cases, arith,
}
use geoverse_map_server.Engine.{is_seen, look, look_cells}
use mathlib.Core.List.{Memᴰ}
use mathlib.Core.List.Memᴰ

-- What is found are the features that were seen and that the test accepts.
abbrev pub IsLooked : (ℕ → Bool) → List ℕ × List ℕ → Type 0
IsLooked hits st = (j : ℕ) → Memᴰ j st.1 ↔ ((is_seen j st.0 ≡ true) × (hits j ≡ true))

is_seen-cons :
    (j i : ℕ) (seen : List ℕ) → (is_seen j (i ∷ seen) ≡ true) ↔ ((j ≡ i) ⊎ (is_seen j seen ≡ true))
is_seen-cons j i seen = ground arith

-- The state after a feature that was not seen.
abbrev noted : (ℕ → Bool) → ℕ → List ℕ × List ℕ → List ℕ × List ℕ
noted hits i st = (i ∷ st.0, if hits i then st.1 ++ i ∷ [] else st.1)

noted-IsLooked :
    (hits : ℕ → Bool) (i : ℕ) (st : List ℕ × List ℕ)
    → IsLooked hits st
    → IsLooked hits (noted hits i st)
noted-IsLooked hits i st h j =
    let cons = is_seen-cons j i st.0 in
    elim (Bool-cases (hits i)) [
      | inl hit ↦ rw hit (
        λ m. elim (Memᴰ.append_cases st.1 m) [
          | inl old ↦ let (s, y) = (h j).0 old in (cons.1 (inr s), y)
          | inr new ↦ let e = Memᴰ.eq_of_singleton new in (cons.1 (inl e), ap hits e ∙ hit)
        ],
        λ (s, y). elim (cons.0 s) [
          | inl e ↦ Memᴰ.append_right st.1 (Memᴰ.head e)
          | inr old ↦ Memᴰ.append_left (i ∷ []) ((h j).1 (old, y))
        ],
      )
      | inr miss ↦ rw miss (
        λ m. let (s, y) = (h j).0 m in (cons.1 (inr s), y),
        λ (s, y). elim (cons.0 s) [
          | inl e ↦ absurd (cc (ap hits e, y, miss))
          | inr old ↦ (h j).1 (old, y)
        ],
      )
    ]

look-IsLooked :
    (hits : ℕ → Bool) (is : List ℕ) (st : List ℕ × List ℕ)
    → IsLooked hits st
    → IsLooked hits (look hits is st)
      × ((j : ℕ) → (is_seen j (look hits is st).0 ≡ true) ↔ ((is_seen j st.0 ≡ true) ⊎ Memᴰ j is))
unfolding look
look-IsLooked hits [] st h =
    (h, λ j. (inl, λ w. elim w [ inl s ↦ s | inr m ↦ absurd (Memᴰ.not-nil m) ]))
look-IsLooked hits (i ∷ is) st h = elim (Bool-cases (is_seen i st.0)) [
  | inl old ↦
      let (h', s) = look-IsLooked hits is st h in
      rw (old, look)
        (
          h',
          λ j. (
            λ w. elim ((s j).0 w) [ inl x ↦ inl x | inr m ↦ inr (Memᴰ.tail m) ],
            λ w. (s j).1 (elim w [
              | inl x ↦ inl x
              | inr m ↦ elim (Memᴰ.cases_cons m) [
                | inl e ↦ inl (ap (λ z. is_seen z st.0) e ∙ old)
                | inr t ↦ inr t
              ]
            ]),
          ),
        )
  | inr new ↦
      let (h', s) = look-IsLooked hits is (noted hits i st) (noted-IsLooked hits i st h) in
      rw (new, look)
        (
          h',
          λ j.
              let cons = is_seen-cons j i st.0 in
              (
                λ w. elim ((s j).0 w) [
                  | inr m ↦ inr (Memᴰ.tail m)
                  | inl x ↦ elim (cons.0 x) [ inl e ↦ inr (Memᴰ.head e) | inr y ↦ inl y ]
                ],
                λ w. (s j).1 (elim w [
                  | inl x ↦ inl (cons.1 (inr x))
                  | inr m ↦ elim (Memᴰ.cases_cons m) [
                    | inl e ↦ inl (cons.1 (inl e))
                    | inr t ↦ inr t
                  ]
                ]),
              ),
        )
]

pub look_cells-IsLooked :
    (hits : ℕ → Bool) (grid : List (List ℕ)) (cs : List ℕ) (st : List ℕ × List ℕ)
    → IsLooked hits st
    → IsLooked hits (look_cells hits grid cs st)
      × ((j : ℕ)
          → (is_seen j (look_cells hits grid cs st).0 ≡ true)
            ↔ ((is_seen j st.0 ≡ true) ⊎ ((c : ℕ) × Memᴰ c cs × Memᴰ j (get_or grid c []))))
unfolding look_cells
look_cells-IsLooked hits grid [] st h =
    (h, λ j. (inl, λ w. elim w [ inl s ↦ s | inr (c, m, _) ↦ absurd (Memᴰ.not-nil m) ]))
look_cells-IsLooked hits grid (c ∷ cs) st h =
    let (h', one) = look-IsLooked hits (get_or grid c []) st h in
    let (h'', all) = look_cells-IsLooked hits grid cs (look hits (get_or grid c []) st) h' in
    (
      h'',
      λ j. (
        λ w. elim ((all j).0 w) [
          | inr (d, m, n) ↦ inr (d, Memᴰ.tail m, n)
          | inl x ↦ elim ((one j).0 x) [ inl s ↦ inl s | inr n ↦ inr (c, Memᴰ.head refl, n) ]
        ],
        λ w. (all j).1 (elim w [
          | inl s ↦ inl ((one j).1 (inl s))
          | inr (d, m, n) ↦ elim (Memᴰ.cases_cons m) [
            | inl e ↦ inl ((one j).1 (inr (subst (λ z. Memᴰ j (get_or grid z [])) e n)))
            | inr t ↦ inr (d, t, n)
          ]
        ]),
      ),
    )
