-- ===== src/Cnames.antt =====
-- src/cnames.rs: the static CNAMEs, exact and by wildcard.
pub mod Lookup
pub mod Zones
use hopdns.Base.{
  ℕ, zero, suc, ◌+◌, Bool, true, false, not, ◌&&◌, ◌||◌, List, [], ◌∷◌, ◌++◌, Option, none, some,
  leb, ltb, ◌==◌, if◌then◌else◌, length,
}
use hopdns.Errors.{Result, ok, err}
use hopdns.Table
use hopdns.Table.{Table}
use hopdns.Text
use hopdns.Text.{Text, codes, text_eq, lowercase, strip_prefix, ends_with, without_dot, split_once}
use hopdns.Text.Space.{trim}
use hopdns.Server.Zone.{in_zone}

pub record Cnames : Type 0 where
  pub exact : Table Text
  pub wildcard : Table Text

unfoldable pub default : Cnames
default = record { exact = Table.new; wildcard = Table.new }

unfoldable pub key_of : Text → Text
key_of name = lowercase (without_dot (trim name))

unfoldable pub fqdn : Text → Text
fqdn name = let t = trim name in if ends_with t (b'.' ∷ []) then t else t ++ b'.' ∷ []

-- One pair of `new`: a wildcard, an exact name, or nothing.
unfoldable pub add_key : Text → Text → Cnames → Cnames
add_key key target c =
    let exactly = record c { exact = (Table.insert true key target c.exact).0 } in
    elim (strip_prefix key (codes "*.")) [
      | none ↦ exactly
      | some parent ↦
          if Text.is_empty parent
          then exactly
          else record c { wildcard = (Table.insert true parent target c.wildcard).0 }
    ]

unfoldable pub add : Text × Text → Cnames → Cnames
add pair c =
    let key = key_of (pair.0) in
    if Text.is_empty key || Text.is_empty (trim (pair.1)) then c else add_key key (fqdn (pair.1)) c

-- The loop of `new`.
unfoldable pub add_all : List (Text × Text) → Cnames → Cnames
add_all [] c = c
add_all (pair ∷ pairs) c = add_all pairs (add pair c)

unfoldable pub new : List (Text × Text) → Cnames
new pairs = add_all pairs default

-- `lower_into`: the name in small letters, if it fits the 256 bytes on the stack.
unfoldable pub lower_into : Text → Option Text
lower_into s = if leb (length s) 256 then some (lowercase s) else none

-- The loop over the parents. `split_once('.')` of what is left is found byte by byte: at a dot the
-- rest behind it is the next parent.
unfoldable pub climb : Table Text → Text → Option Text
climb wildcard [] = none
climb wildcard (c ∷ rest) = elim (c == b'.') [
  | false ↦ climb wildcard rest
  | true ↦ elim (Text.is_empty rest) [
    | true ↦ none
    | false ↦ elim (Table.get rest wildcard) [ some v ↦ some v | none ↦ climb wildcard rest ]
  ]
]

unfoldable pub lookup : Cnames → Text → Option Text
lookup c name = elim (lower_into (without_dot name)) [
  | none ↦ none
  | some lower ↦ elim (Table.get lower c.exact) [ some v ↦ some v | none ↦ climb c.wildcard lower ]
]

unfoldable pub len : Cnames → ℕ
len c = Table.len c.exact + Table.len c.wildcard

unfoldable pub is_empty : Cnames → Bool
is_empty c = len c == 0

-- `k.split_once('.').map(|(_, z)| z)` of each exact name, and each wildcard's parent.
unfoldable pub zone_of_key : Text → Option Text
zone_of_key k = elim (split_once b'.' k) [ some (_, z) ↦ some z | none ↦ none ]

unfoldable pub key_zones : List Text → List Text
key_zones [] = []
key_zones (k ∷ ks) =
    let rest = key_zones ks in elim (zone_of_key k) [ some z ↦ z ∷ rest | none ↦ rest ]

unfoldable pub all_zones : Cnames → List Text
all_zones c = key_zones (Table.keys c.exact) ++ Table.keys c.wildcard

unfoldable pub contains_text : List Text → Text → Bool
contains_text [] t = false
contains_text (x ∷ xs) t = text_eq x t || contains_text xs t

-- `filter(|z| !z.is_empty())`.
unfoldable pub non_empty : List Text → List Text
non_empty [] = []
non_empty (z ∷ zs) = if Text.is_empty z then non_empty zs else z ∷ non_empty zs

-- The loop of `zones`.
unfoldable pub add_zones : List Text → List Text → List Text
add_zones out [] = out
add_zones out (z ∷ zs) = add_zones (if not (contains_text out z) then out ++ z ∷ [] else out) zs

unfoldable pub zones : Cnames → List Text
zones c = add_zones [] (non_empty (key_zones (Table.keys c.exact)) ++ Table.keys c.wildcard)

-- `filter(..).max_by_key(|z| z.len())`: of the longest the last.
unfoldable pub longest_zone : Text → Option Text → List Text → Option Text
longest_zone name best [] = best
longest_zone name best (z ∷ zs) =
    let better : Bool = elim best [ some b ↦ leb (length b) (length z) | none ↦ true ] in
    longest_zone name (if not (Text.is_empty z) && in_zone name z && better then some z else best)
      zs

unfoldable pub zone_of : Cnames → Text → Option Text
zone_of c name = longest_zone name none (all_zones c)
