-- ===== src/Text.antt =====
-- `&str` and `String`: a text is the list of its UTF-8 bytes, which is what `len`, `cmp` and the
-- slices of the source count. The functions are those of Rust's `str` that the source calls.
pub mod Order
pub mod Space
pub mod Split
use Prim.Native.Nat.{compare, Ordering}
use Prim.Native.Char.{code}
use Prim.Native.String.{String}
use hopdns.Base.{
  ℕ, zero, suc, ◌+◌, ◌-◌, Bool, true, false, ◌&&◌, ◌≡◌, List, [], ◌∷◌, ◌++◌, map, Option, none,
  some, leb, ◌==◌, if◌then◌else◌, length, take, drop,
}

abbrev pub Text : Type 0
Text = List ℕ

-- A literal of the source, which is ASCII.
abbrev pub codes : String → Text
codes String.[] = []
codes (String.◌∷◌ c s) = code c ∷ codes s

-- `a == b`.
unfoldable pub text_eq : Text → Text → Bool
text_eq [] [] = true
text_eq (x ∷ xs) (y ∷ ys) = x == y && text_eq xs ys
text_eq _ _ = false

-- `a.cmp(b)`: by bytes, left to right.
unfoldable pub compare_text : Text → Text → Ordering
compare_text [] [] = Ordering.eq
compare_text [] (y ∷ ys) = Ordering.lt
compare_text (x ∷ xs) [] = Ordering.gt
compare_text (x ∷ xs) (y ∷ ys) = elim (compare x y) [
  | Ordering.lt ↦ Ordering.lt
  | Ordering.gt ↦ Ordering.gt
  | Ordering.eq ↦ compare_text xs ys
]

-- `c.to_ascii_lowercase()`. A byte of a character that is not ASCII is 128 or more, so a text is
-- lowered byte by byte.
unfoldable pub to_ascii_lowercase : ℕ → ℕ
to_ascii_lowercase c = if leb b'A' c && leb c b'Z' then c + 32 else c

unfoldable pub lowercase : Text → Text
lowercase t = map to_ascii_lowercase t

-- `a.eq_ignore_ascii_case(b)`.
unfoldable pub eq_ignore_ascii_case : Text → Text → Bool
eq_ignore_ascii_case a b = text_eq (lowercase a) (lowercase b)

unfoldable pub is_empty : Text → Bool
is_empty [] = true
is_empty (c ∷ t) = false

unfoldable pub strip_prefix : Text → Text → Option Text
strip_prefix t [] = some t
strip_prefix [] (p ∷ ps) = none
strip_prefix (c ∷ t) (p ∷ ps) = if c == p then strip_prefix t ps else none

unfoldable pub ends_with : Text → Text → Bool
ends_with t z = leb (length z) (length t) && text_eq (drop (length t - length z) t) z

unfoldable pub strip_suffix : Text → Text → Option Text
strip_suffix t z = if ends_with t z then some (take (length t - length z) t) else none

-- `t.strip_suffix('.').unwrap_or(t)`.
unfoldable pub without_dot : Text → Text
without_dot t = elim (strip_suffix t (b'.' ∷ [])) [ some s ↦ s | none ↦ t ]

-- `t.split_once(sep)`: at the first `sep`, which falls out.
unfoldable pub split_once : ℕ → Text → Option (Text × Text)
split_once sep [] = none
split_once sep (c ∷ t) =
    let rest = split_once sep t in
    if c == sep then some ([], t) else elim rest [ some (a, b) ↦ some (c ∷ a, b) | none ↦ none ]

-- `t.rsplit_once(sep)`: at the last one.
unfoldable pub rsplit_once : ℕ → Text → Option (Text × Text)
rsplit_once sep [] = none
rsplit_once sep (c ∷ t) = elim (rsplit_once sep t) [
  | some (a, b) ↦ some (c ∷ a, b)
  | none ↦ if c == sep then some ([], t) else none
]

-- The piece in front of the first separator, and the pieces behind it.
unfoldable pub split_pieces : (ℕ → Bool) → Text → Text × List Text
split_pieces is_sep [] = ([], [])
split_pieces is_sep (c ∷ t) =
    let (p, ps) = split_pieces is_sep t in if is_sep c then ([], p ∷ ps) else (c ∷ p, ps)

-- `t.split(…)`.
unfoldable pub split : (ℕ → Bool) → Text → List Text
split is_sep t = let (p, ps) = split_pieces is_sep t in p ∷ ps
