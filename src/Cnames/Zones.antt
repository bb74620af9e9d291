-- ===== src/Cnames/Zones.antt =====
-- src/cnames.rs: the zones of the table, and the zone that a name lies in.
use hopdns.Base.{
  ◌≤◌, Bool, true, false, ◌||◌, List, [], ◌∷◌, ◌++◌, Option, none, some, ◌≡◌, refl, ◌⊎◌, inl, inr,
  arith, leb, length, Bool-cases,
}
use hopdns.Table
use hopdns.Text.{Text, text_eq, is_empty}
use hopdns.Text.Order.{text_eq_iff, text_eq_refl}
use hopdns.Server.Zone.{in_zone}
use hopdns.Cnames.{Cnames, contains_text, non_empty, add_zones, key_zones, zones}

-- A zone that a name lies in.
abbrev pub Holds : Text → Text → Type 0
Holds name z = (is_empty z ≡ false) × (in_zone name z ≡ true)

-- `b` may be the zone found so far.
abbrev AtMost : Option Text → Text → Type 0
AtMost none z = Unit
AtMost (some b) z = length b ≤ length z

better : Option Text → Text → Bool
better best z = elim best [ some b ↦ leb (length b) (length z) | none ↦ true ]

-- What the loop found: the zone so far or one of the rest, and no zone of both is longer.
record Longest (name : Text) (best : Option Text) (zs : List Text) (z : Text) : Type 0 where
  from : (best ≡ some z) ⊎ ((contains_text zs z ≡ true) × Holds name z)
  over_best : AtMost best z
  over_rest : (z' : Text) → contains_text zs z' ≡ true → Holds name z' → length z' ≤ length z

-- No zone stands twice.
abbrev pub DistinctTexts : List Text → Type 0
DistinctTexts [] = Unit
DistinctTexts (z ∷ zs) = (contains_text zs z ≡ false) × DistinctTexts zs

contains_text-concat :
    (zs : List Text) (y z : Text)
    → contains_text (zs ++ y ∷ []) z ≡ (contains_text zs z || text_eq y z)
unfolding contains_text
contains_text-concat [] y z = ground arith
contains_text-concat (x ∷ zs) y z = ground (arith, contains_text-concat zs y z)

DistinctTexts-concat :
    (zs : List Text) (y : Text)
    → DistinctTexts zs
    → contains_text zs y ≡ false
    → DistinctTexts (zs ++ y ∷ [])
unfolding contains_text
DistinctTexts-concat [] y d h = (refl, tt)
DistinctTexts-concat (x ∷ zs) y d h = (
  ground (arith, contains_text-concat zs y x, text_eq_iff x y, text_eq_iff y x, text_eq_refl x),
  DistinctTexts-concat zs y (d.1) (ground (arith)),
)

DistinctTexts-add_zones :
    (zs out : List Text) → DistinctTexts out → DistinctTexts (add_zones out zs)
unfolding add_zones
DistinctTexts-add_zones [] out d = d
DistinctTexts-add_zones (z ∷ zs) out d = elim (Bool-cases (contains_text out z)) [
  | inl old ↦ rw (old, add_zones) (DistinctTexts-add_zones zs out d)
  | inr new ↦
      rw (new, add_zones)
        (DistinctTexts-add_zones zs (out ++ z ∷ []) (DistinctTexts-concat out z d new))
]

contains_text-add_zones :
    (zs out : List Text) (z : Text)
    → contains_text (add_zones out zs) z ≡ (contains_text out z || contains_text zs z)
unfolding add_zones contains_text
contains_text-add_zones [] out z = ground arith
contains_text-add_zones (y ∷ zs) out z = elim (Bool-cases (contains_text out y)) [
  | inl old ↦
      rw (old, add_zones) (ground (arith, contains_text-add_zones zs out z, text_eq_iff y z))
  | inr new ↦
      rw (new, add_zones)
        (ground (arith, contains_text-add_zones zs (out ++ y ∷ []) z, contains_text-concat out y z))
]

-- `zones` has no zone twice, and has exactly the non-empty rests of the exact names behind their
-- first dot and the keys of the wildcard table.
pub zones_lem :
    (c : Cnames)
    → DistinctTexts (zones c)
      × ((z : Text)
          → contains_text (zones c) z
            ≡ contains_text (non_empty (key_zones (Table.keys c.exact)) ++ Table.keys c.wildcard) z)
unfolding zones contains_text
zones_lem c = (
  DistinctTexts-add_zones _ [] tt,
  λ z.
      contains_text-add_zones (non_empty (key_zones (Table.keys c.exact)) ++ Table.keys c.wildcard)
        [] z,
)
