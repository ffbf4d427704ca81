-- ===== src/Base/Strings.antt =====
-- What the program uses of Go's `strings`: equality, prefixes, the cut of white space, splitting.
use Prim.Native.Nat.{ℕ, zero, suc}
use mathlib.Core.Bool.{Bool, true, false, ◌&&◌, ◌||◌}
use mathlib.Core.List.{List, [], ◌∷◌, reverse}
use mathlib.Core.Logic.{ite}
use geoverse_map_server.Base.Lists.{length, drop}
use geoverse_map_server.Base.Tests.{leb, ◌==◌, if◌then◌else◌}
use geoverse_map_server.Base.Text.{Text, text_eq}

-- `a == b`
unfoldable pub same : Text → Text → Bool
same a b = ite (text_eq a b) true false

-- `s == ""`
abbrev pub is_empty : {A : Type 0} → List A → Bool
is_empty [] = true
is_empty (c ∷ s) = false

-- Whether a text stands in a list.
unfoldable pub listed : Text → List Text → Bool
listed n [] = false
listed n (m ∷ ms) = ite (text_eq m n) true (listed n ms)

abbrev pub has_prefix : Text → Text → Bool
has_prefix [] s = true
has_prefix (c ∷ p) [] = false
has_prefix (c ∷ p) (d ∷ s) = c == d && has_prefix p s

-- `strings.TrimPrefix`, without the prefix test.
abbrev pub after : Text → Text → Text
after [] s = s
after (c ∷ p) [] = []
after (c ∷ p) (d ∷ s) = after p s

-- The last byte of a three-byte white space that starts with 0xE2 0x80.
abbrev is_general_space : ℕ → Bool
is_general_space c = (leb 128 c && leb c 138) || c == 168 || c == 169 || c == 175

-- The bytes of the white space in front, by UTF-8: 0 if there is none.
unfoldable pub space_width : Text → ℕ
space_width [] = 0
space_width (a ∷ []) = if (leb 9 a && leb a 13) || a == 32 then 1 else 0
space_width (a ∷ b ∷ []) =
    if (leb 9 a && leb a 13) || a == 32
    then 1
    else if a == 194 && (b == 133 || b == 160)
    then 2
    else 0
space_width (a ∷ b ∷ c ∷ s) =
    if (leb 9 a && leb a 13) || a == 32
    then 1
    else if a == 194 && (b == 133 || b == 160)
    then 2
    else if (a == 225 && b == 154 && c == 128)
        || (a == 226 && b == 128 && is_general_space c)
        || (a == 226 && b == 129 && c == 159)
        || (a == 227 && b == 128 && c == 128)
    then 3
    else 0

-- The same for a text read backwards.
unfoldable pub space_width_back : Text → ℕ
space_width_back [] = 0
space_width_back (a ∷ []) = space_width (a ∷ [])
space_width_back (a ∷ b ∷ []) =
    if space_width (a ∷ []) == 1 then 1 else if space_width (b ∷ a ∷ []) == 2 then 2 else 0
space_width_back (a ∷ b ∷ c ∷ s) =
    if space_width (a ∷ []) == 1
    then 1
    else if space_width (b ∷ a ∷ []) == 2
    then 2
    else if space_width (c ∷ b ∷ a ∷ []) == 3
    then 3
    else 0

-- White space taken off the front; the fuel bounds the rounds, each takes a byte at least.
unfoldable pub cut_front : (Text → ℕ) → ℕ → Text → Text
cut_front width zero s = s
cut_front width (suc fuel) s =
    let n : ℕ = width s in let rest = cut_front width fuel (drop n s) in if n == 0 then s else rest

-- `strings.TrimSpace`
unfoldable pub trim_space : Text → Text
trim_space s =
    let front = cut_front space_width (length s) s in
    reverse (cut_front space_width_back (length front) (reverse front))

-- The part before the first separator, in front of the rest.
abbrev grow : ℕ → List Text → List Text
grow c [] = (c ∷ []) ∷ []
grow c (s ∷ ss) = (c ∷ s) ∷ ss

-- `strings.Split` by a byte
unfoldable pub split_on : ℕ → Text → List Text
split_on sep [] = [] ∷ []
split_on sep (c ∷ s) = let rest = split_on sep s in if c == sep then [] ∷ rest else grow c rest
