-- ===== src/Text/Space.antt =====
-- `str::trim` and its halves: the characters with the property White_Space, in UTF-8.
use hopdns.Base.{ℕ, Bool, true, false, ◌&&◌, ◌||◌, [], ◌∷◌, leb, ◌==◌, if◌then◌else◌}
use hopdns.Text.{Text}
use mathlib.Core.List.{reverse}

-- U+0009 to U+000D and U+0020.
abbrev is_space_1 : ℕ → Bool
is_space_1 a = leb 9 a && leb a 13 || a == 0x20

-- U+0085 and U+00A0.
abbrev is_space_2 : ℕ → ℕ → Bool
is_space_2 a b = a == 0xC2 && (b == 0x85 || b == 0xA0)

-- U+1680, U+2000 to U+200A, U+2028, U+2029, U+202F, U+205F and U+3000.
abbrev is_space_3 : ℕ → ℕ → ℕ → Bool
is_space_3 a b c =
    a == 0xE1 && b == 0x9A && c == 0x80
    || a == 0xE2 && b == 0x80 && (leb 0x80 c && leb c 0x8A || c == 0xA8 || c == 0xA9 || c == 0xAF)
    || a == 0xE2 && b == 0x81 && c == 0x9F
    || a == 0xE3 && b == 0x80 && c == 0x80

unfoldable pub trim_start : Text → Text
trim_start [] = []
trim_start (a ∷ []) = if is_space_1 a then [] else a ∷ []
trim_start (a ∷ b ∷ []) = elim (is_space_1 a) [
  | true ↦ trim_start (b ∷ [])
  | false ↦ if is_space_2 a b then [] else a ∷ b ∷ []
]
trim_start (a ∷ b ∷ c ∷ t) = elim (is_space_1 a) [
  | true ↦ trim_start (b ∷ c ∷ t)
  | false ↦ elim (is_space_2 a b) [
    | true ↦ trim_start (c ∷ t)
    | false ↦ elim (is_space_3 a b c) [ true ↦ trim_start t | false ↦ a ∷ b ∷ c ∷ t ]
  ]
]

-- The same on the bytes from the end.
trim_back : Text → Text
trim_back [] = []
trim_back (a ∷ []) = if is_space_1 a then [] else a ∷ []
trim_back (b ∷ a ∷ []) = elim (is_space_1 b) [
  | true ↦ trim_back (a ∷ [])
  | false ↦ if is_space_2 a b then [] else b ∷ a ∷ []
]
trim_back (c ∷ b ∷ a ∷ t) = elim (is_space_1 c) [
  | true ↦ trim_back (b ∷ a ∷ t)
  | false ↦ elim (is_space_2 b c) [
    | true ↦ trim_back (a ∷ t)
    | false ↦ elim (is_space_3 a b c) [ true ↦ trim_back t | false ↦ c ∷ b ∷ a ∷ t ]
  ]
]

unfoldable pub trim_end : Text → Text
unfolding trim_back
trim_end t = reverse (trim_back (reverse t))

unfoldable pub trim : Text → Text
unfolding trim_start trim_end
trim t = trim_end (trim_start t)
