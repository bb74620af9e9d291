-- ===== src/Server/Zone.antt =====
-- src/server.rs: `in_zone`.
pub mod Suffix
use hopdns.Base.{
  ℕ, ◌-◌, Bool, true, false, ◌&&◌, ◌||◌, List, [], ◌∷◌, Option, none, some, ltb, ◌==◌, length,
  get_elem?,
}
use hopdns.Text.{Text, text_eq, ends_with}

-- Whether `name` lies in `zone`, or is it; both in small letters, with no dot at the end.
unfoldable pub in_zone : Text → Text → Bool
in_zone name zone =
    text_eq name zone
    || (ltb (length zone) (length name)
        && ends_with name zone
        && elim (get_elem? name (length name - length zone - 1)) [
          | some b ↦ b == b'.'
          | none ↦ false
        ])
