-- ===== src/Config/Scalars.antt =====
-- src/config.rs: the scalars of the YAML file: comments, keys, quotes.
pub mod Laws
use hopdns.Base.{
  ℕ, zero, suc, ◌+◌, Bool, true, false, not, ◌&&◌, ◌||◌, List, [], ◌∷◌, ◌++◌, Option, none, some,
  leb, ◌==◌, if◌then◌else◌, ◌>>=◌,
}
use hopdns.Text
use hopdns.Text.{Text, codes, strip_prefix, strip_suffix, split_once}
use hopdns.Text.Space.{trim_start, trim_end}

unfoldable pub is_quote : ℕ → Bool
is_quote c = c == 34 || c == 39

-- The loop of `strip_comment`. A byte of a character that is not ASCII is none of those it looks for.
unfoldable pub comment_walk : Option ℕ → Bool → Text → Text
comment_walk quote prev_space [] = []
comment_walk (some q) prev_space (c ∷ t) =
    c ∷ comment_walk (if c == q then none else some q) (c == b' ' || c == 9) t
comment_walk none prev_space (c ∷ t) = elim (is_quote c) [
  | true ↦ c ∷ comment_walk (some c) false t
  | false ↦ elim (c == b'#' && prev_space) [
    | true ↦ []
    | false ↦ c ∷ comment_walk none (c == b' ' || c == 9) t
  ]
]

unfoldable pub strip_comment : Text → Text
strip_comment line = comment_walk none true line

-- `matches!(line.get(i + 1..i + 2), None | Some(" ") | Some(""))`: the end, a space, or the first
-- byte of a character of several bytes, of which one byte is no text.
unfoldable pub ends_key : Text → Bool
ends_key [] = true
ends_key (c ∷ t) = c == b' ' || leb 128 c

-- The key up to the first such colon, and what stands from the colon on.
unfoldable pub split_bare : Text → Option (Text × Text)
split_bare [] = none
split_bare (c ∷ t) =
    let rest = split_bare t in
    if c == b':' && ends_key t
    then some ([], c ∷ t)
    else elim rest [ some (a, b) ↦ some (c ∷ a, b) | none ↦ none ]

unfoldable pub raw_key : Text → Option (Text × Text)
raw_key [] = none
raw_key (c ∷ t) =
    if is_quote c
    then elim (split_once c t) [ some (key, after) ↦ some (key, trim_start after) | none ↦ none ]
    else elim (split_bare (c ∷ t)) [ some (key, after) ↦ some (trim_end key, after) | none ↦ none ]

unfoldable pub starts_with_space : Text → Bool
starts_with_space [] = false
starts_with_space (c ∷ t) = c == b' '

unfoldable pub split_key : Text → Option (Text × Text)
split_key line = do
  (key, after) ← raw_key line
  rest ← strip_prefix after (codes ":")
  if not (Text.is_empty rest || starts_with_space rest) || Text.is_empty key
      then none
      else some (key, rest)

-- The loop over the characters between double quotes.
unfoldable pub escape_of : ℕ → ℕ
escape_of c = if c == b'n' then 10 else if c == b't' then 9 else c

-- `escaped`: a backslash stands in front.
unfoldable pub unescape : Bool → Text → Option Text
unescape true [] = none
unescape false [] = some []
unescape true (c ∷ t) = elim (unescape false t) [
  | some out ↦ some (escape_of c ∷ out)
  | none ↦ none
]
unescape false (c ∷ t) = elim (c == 92) [
  | true ↦ unescape true t
  | false ↦ elim (unescape false t) [ some out ↦ some (c ∷ out) | none ↦ none ]
]

-- `replace("''", "'")`. `open` is an apostrophe that stands in front.
unfoldable pub merge_quotes : Bool → Text → Text
merge_quotes false [] = []
merge_quotes true [] = 39 ∷ []
merge_quotes false (c ∷ t) = elim (c == 39) [
  | true ↦ merge_quotes true t
  | false ↦ c ∷ merge_quotes false t
]
merge_quotes true (c ∷ t) = elim (c == 39) [
  | true ↦ 39 ∷ merge_quotes false t
  | false ↦ 39 ∷ c ∷ merge_quotes false t
]

-- `starts_with(['{', '[', '&', '|', '>'])`.
unfoldable pub is_flow : Text → Bool
is_flow [] = false
is_flow (c ∷ t) = c == b'{' || c == b'[' || c == b'&' || c == b'|' || c == b'>'

unfoldable pub unquote : Text → Option Text
unquote v = elim (strip_prefix v (34 ∷ [])) [
  | some body ↦ strip_suffix body (34 ∷ []) >>= unescape false
  | none ↦ elim (strip_prefix v (39 ∷ [])) [
    | some body ↦ strip_suffix body (39 ∷ []) >>= λ inner. some (merge_quotes false inner)
    | none ↦ if is_flow v then none else some v
  ]
]
