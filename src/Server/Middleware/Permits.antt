-- ===== src/Server/Middleware/Permits.antt =====
-- Which requests the key layer of internal/server/middleware.go is to let through: those for exempt
-- paths, and those that carry a configured key.
use geoverse_map_server.Base.{
  ◌≡◌, ◌≢◌, ◌↔◌, ◌⊎◌, inl, inr, refl, sym, ◌∙◌, ap, Bool, true, false, List, [], ◌∷◌, ◌++◌, not,
  ◌&&◌, ◌||◌, Bool-cases, ◌==◌, ite, subst,
}
use geoverse_map_server.Base.Strings.{same, is_empty, listed, has_prefix, after}
use geoverse_map_server.Base.Tests.{==_iff}
use geoverse_map_server.Base.Text.{Text, str, text_eq}
use geoverse_map_server.Server.Middleware.{Request, is_public, key_of}
use mathlib.Core.List.{Memᴰ}
use mathlib.Core.List.Memᴰ
use mathlib.Core.Logic.{⊎_elim}

-- The two probes, and the three files of the web interface where they are read.
abbrev pub IsExempt : Request → Type 0
IsExempt r =
    ((r.path ≡ str "/health") ⊎ (r.path ≡ str "/readyz"))
    ⊎ (((r.method ≡ str "GET") ⊎ (r.method ≡ str "HEAD"))
        × (((r.path ≡ str "/admin/") ⊎ (r.path ≡ str "/admin/app.css"))
            ⊎ (r.path ≡ str "/admin/app.js")))

abbrev pub HasBearer : Request → Text → Type 0
HasBearer r k = r.authorization ≡ str "Bearer " ++ k

-- The key of a request is the bearer's of its Authorization header, without one that of X-API-Key,
-- and without that the one of the query.
abbrev pub Carries : Request → Text → Type 0
Carries r k =
    HasBearer r k
    ⊎ ((¬ ((j : Text) × HasBearer r j))
        × (((r.x_api_key ≢ []) × (k ≡ r.x_api_key)) ⊎ ((r.x_api_key ≡ []) × (k ≡ r.api_key))))

-- What may pass.
abbrev pub IsPermitted : List Text → Request → Type 0
IsPermitted keys r = IsExempt r ⊎ ((k : Text) × Carries r k × (k ≢ []) × Memᴰ k keys)

same_iff : (a b : Text) → (same a b ≡ true) ↔ (a ≡ b)
unfolding same
same_iff a b = elim (text_eq a b) as (λ d. (ite d true false ≡ true) ↔ (a ≡ b)) [
  | yes e ↦ (λ _. e, λ _. refl)
  | no n ↦ (λ h. absurd (cc h), λ e. absurd (n e))
]

or_iff :
    {A B : Type 0} (a b : Bool) → ((a ≡ true) ↔ A) → ((b ≡ true) ↔ B) → ((a || b) ≡ true) ↔ (A ⊎ B)
or_iff true b f g = (λ _. inl (f.0 refl), λ _. refl)
or_iff false b f g = (λ h. inr (g.0 h), λ h. ⊎_elim (λ x. absurd (cc (f.1 x))) (λ y. g.1 y) h)

and_iff :
    {A B : Type 0} (a b : Bool) → ((a ≡ true) ↔ A) → ((b ≡ true) ↔ B) → ((a && b) ≡ true) ↔ (A × B)
and_iff true b f g = (λ h. (f.0 refl, g.0 h), λ h. g.1 h.1)
and_iff false b f g = (λ h. absurd (cc h), λ h. absurd (cc (f.1 h.0)))

is_public_iff : (r : Request) → (is_public r ≡ true) ↔ IsExempt r
unfolding is_public
is_public_iff r =
    let asset =
      and_iff _ _ (or_iff _ _ (same_iff r.method (str "GET")) (same_iff r.method (str "HEAD"))) (
        or_iff _ _
          (or_iff _ _ (same_iff r.path (str "/admin/")) (same_iff r.path (str "/admin/app.css")))
          (same_iff r.path (str "/admin/app.js"))) in
    or_iff _ _ (or_iff _ _ (same_iff r.path (str "/health")) (same_iff r.path (str "/readyz")))
      asset

has_prefix-after : (p s : Text) → has_prefix p s ≡ true → s ≡ p ++ after p s
has_prefix-after [] s h = refl
has_prefix-after (c ∷ p) [] h = absurd (cc h)
has_prefix-after (c ∷ p) (d ∷ s) h = elim (Bool-cases (c == d)) [
  | inl e ↦
      let rest : s ≡ p ++ after p s = has_prefix-after p s (rw e at h) in
      let first : c ≡ d = (==_iff c d).0 e in cc (first, rest)
  | inr n ↦ absurd (cc (rw n at h))
]

has_prefix-own : (p k : Text) → has_prefix p (p ++ k) ≡ true
has_prefix-own [] k = refl
has_prefix-own (c ∷ p) k = rw ((==_iff c c).1 refl) (has_prefix-own p k)

after-own : (p k : Text) → after p (p ++ k) ≡ k
after-own [] k = refl
after-own (c ∷ p) k = after-own p k

listed_iff : (k : Text) (keys : List Text) → (listed k keys ≡ true) ↔ Memᴰ k keys
unfolding listed
listed_iff k [] = (λ h. absurd (cc h), λ m. absurd (Memᴰ.not-nil m))
listed_iff k (j ∷ keys) =
    elim (text_eq j k) as (λ d. (ite d true (listed k keys) ≡ true) ↔ Memᴰ k (j ∷ keys)) [
      | yes e ↦ (λ _. Memᴰ.head (sym e), λ _. refl)
      | no n ↦
          let rest = listed_iff k keys in
          (
            λ h. Memᴰ.tail (rest.0 h),
            λ m. ⊎_elim (λ e. absurd (n (sym e))) rest.1 (Memᴰ.cases_cons m),
          )
    ]

empty_iff : (k : Text) → (is_empty k ≡ true) ↔ (k ≡ [])
empty_iff [] = (λ _. refl, λ _. refl)
empty_iff (c ∷ k) = (λ h. absurd (cc h), λ e. absurd (cc e))

-- The code's key is the one that the request carries.
pub Carries-key_of : (r : Request) → Carries r (key_of r)
unfolding key_of
Carries-key_of r = elim (Bool-cases (has_prefix (str "Bearer ") r.authorization)) [
  | inl e ↦ rw (e, key_of) (inl (has_prefix-after (str "Bearer ") r.authorization e))
  | inr e ↦
      let other : ¬ ((j : Text) × HasBearer r j) =
        λ (j, is). cc (ap (has_prefix (str "Bearer ")) is, has_prefix-own (str "Bearer ") j, e) in
      elim (Bool-cases (is_empty r.x_api_key)) [
        | inl nothing ↦
            rw (e, nothing, key_of) (inr (other, inr ((empty_iff r.x_api_key).0 nothing, refl)))
        | inr given ↦
            rw (e, given, key_of)
              (inr (other, inl (λ h. cc ((empty_iff r.x_api_key).1 h, given), refl)))
      ]
]

Carries-unique : (r : Request) (j k : Text) → Carries r j → Carries r k → j ≡ k
Carries-unique r j k (inl a) (inl b) =
    sym (after-own (str "Bearer ") j)
    ∙ ap (after (str "Bearer ")) (sym a ∙ b)
    ∙ after-own (str "Bearer ") k
Carries-unique r j k (inl a) (inr (never, _)) = absurd (never (j, a))
Carries-unique r j k (inr (never, _)) (inl b) = absurd (never (k, b))
Carries-unique r j k (inr (_, inl (_, a))) (inr (_, inl (_, b))) = a ∙ sym b
Carries-unique r j k (inr (_, inr (_, a))) (inr (_, inr (_, b))) = a ∙ sym b
Carries-unique r j k (inr (_, inl (given, _))) (inr (_, inr (not_given, _))) =
    absurd (given not_given)
Carries-unique r j k (inr (_, inr (not_given, _))) (inr (_, inl (given, _))) =
    absurd (given not_given)

-- What the layer of the keys lets through, apart from digests.
abbrev pub is_permitted : List Text → Request → Bool
is_permitted keys r = is_public r || (not (is_empty (key_of r)) && listed (key_of r) keys)

has_key_iff :
    (keys : List Text) (r : Request)
    → ((not (is_empty (key_of r)) && listed (key_of r) keys) ≡ true)
      ↔ ((k : Text) × Carries r k × (k ≢ []) × Memᴰ k keys)
has_key_iff keys r =
    let k = key_of r in
    let own = listed_iff k keys in
    let none_there = empty_iff k in
    elim (Bool-cases (is_empty k)) [
      | inl e ↦ rw e (
        λ h. absurd (cc h),
        λ (j, has, some_key, m).
            absurd (some_key (Carries-unique r j k has (Carries-key_of r) ∙ none_there.0 e)),
      )
      | inr e ↦ rw e (
        λ h. (k, Carries-key_of r, λ z. cc (none_there.1 z, e), own.0 h),
        λ (j, has, some_key, m).
            own.1 (subst (λ i. Memᴰ i keys) (Carries-unique r j k has (Carries-key_of r)) m),
      )
    ]

pub is_permitted_iff :
    (keys : List Text) (r : Request) → (is_permitted keys r ≡ true) ↔ IsPermitted keys r
is_permitted_iff keys r = or_iff _ _ (is_public_iff r) (has_key_iff keys r)
