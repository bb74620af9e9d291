-- ===== src/Tests/Names.antt =====
-- src/cnames.rs and `in_zone`: a table with an exact name and a wildcard.
use hopdns.Base.{true, [], ◌∷◌, ◌++◌, none, some, ◌≡◌, refl, ◌⊎◌, ◌↔◌, arith}
use hopdns.Cnames.{Cnames, lookup, lower_into, climb}
use hopdns.Cnames.Lookup.{Nearest, IsParent, folded, Fits, lookup-some, lookup-none}
use hopdns.Server.Zone.{in_zone}
use hopdns.Server.Zone.Suffix.{in_zone_iff}
use hopdns.Table
use hopdns.Table.{Table}
use hopdns.Text.{
  Text, codes, text_eq, compare_text, is_empty, lowercase, to_ascii_lowercase, without_dot,
  strip_suffix, ends_with,
}

abbrev pub sample : Cnames
sample = record {
  exact = record { rows = (codes "www.example.org", codes "web.hop.local.") ∷ [] };
  wildcard = record { rows = (codes "apps.example.org", codes "edge.hop.local.") ∷ [] };
}

-- A name two labels below the wildcard's parent.
abbrev deep : Text
deep = codes "A.b.apps.example.org."

lookup-deep : lookup sample deep ≡ some (codes "edge.hop.local.")
unfolding lookup lower_into climb without_dot strip_suffix ends_with text_eq lowercase
    to_ascii_lowercase is_empty Table.get compare_text
lookup-deep = refl

lookup-some_example :
    Fits deep
    × ((Table.get (folded deep) sample.exact ≡ some (codes "edge.hop.local."))
        ⊎ ((Table.get (folded deep) sample.exact ≡ none)
            × Nearest sample.wildcard (folded deep) (codes "edge.hop.local.")))
lookup-some_example = lookup-some sample deep (codes "edge.hop.local.") lookup-deep

-- The wildcard's parent itself has no CNAME.
abbrev parent : Text
parent = codes "apps.example.org"

parent-Fits : Fits parent
unfolding without_dot strip_suffix ends_with text_eq
parent-Fits = omega arith

lookup-parent : lookup sample parent ≡ none
unfolding lookup lower_into climb without_dot strip_suffix ends_with text_eq lowercase
    to_ascii_lowercase is_empty Table.get compare_text
lookup-parent = refl

lookup-none_example :
    (Table.get (folded parent) sample.exact ≡ none)
    × ((p z : Text) → IsParent (folded parent) p z → Table.get z sample.wildcard ≡ none)
lookup-none_example = lookup-none sample parent parent-Fits lookup-parent

in_zone_iff_example : (in_zone (codes "web.hop.local") (codes "hop.local") ≡ true) ↔ (
    (codes "web.hop.local" ≡ codes "hop.local")
    ⊎ ((p : Text) × (codes "web.hop.local" ≡ p ++ b'.' ∷ codes "hop.local")))
in_zone_iff_example = in_zone_iff (codes "web.hop.local") (codes "hop.local")
