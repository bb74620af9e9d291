-- ===== src/Wire/Names.antt =====
-- src/wire.rs: names on the wire: skipped, read as text, and written.
pub mod Ends
pub mod Wires
pub mod Skip
pub mod Read
use hopdns.Base.{
  ℕ, zero, suc, ◌+◌, ◌-◌, Bool, true, false, not, ◌&&◌, ◌||◌, List, [], ◌∷◌, ◌++◌, Option, none,
  some, leb, ltb, ◌==◌, if◌then◌else◌, length, drop, overwrite,
}
use hopdns.Errors.{Result, ok, err, bad_name, no_room, ◌>>=◌}
use hopdns.Text.{Text, to_ascii_lowercase, without_dot, is_empty, split}
use hopdns.Wire.{name_max, label_max}

-- The loop of `skip_plain_name`. It walks the bytes from `at` on; `pending` of them belong to the
-- label that `at += 1 + len` steps over.
unfoldable pub skip_plain_walk : ℕ → List ℕ → ℕ → ℕ → Option ℕ
skip_plain_walk start [] pending at = none
skip_plain_walk start (b ∷ bs) (suc pending) at = skip_plain_walk start bs pending (at + 1)
skip_plain_walk start (b ∷ bs) zero at = elim (b == 0) [
  | true ↦ if leb (at + 1 - start) name_max then some (at + 1) else none
  | false ↦ elim (ltb label_max b) [ true ↦ none | false ↦ skip_plain_walk start bs b (at + 1) ]
]

-- The end of the name at `at`, which holds no pointer.
unfoldable pub skip_plain_name : List ℕ → ℕ → Option ℕ
skip_plain_name msg at = skip_plain_walk at (drop at msg) 0 at

-- The loop of `skip_name`, likewise.
unfoldable pub skip_walk : List ℕ → ℕ → ℕ → Option ℕ
skip_walk [] pending at = none
skip_walk (b ∷ bs) (suc pending) at = skip_walk bs pending (at + 1)
skip_walk (b ∷ bs) zero at = elim (b == 0) [
  | true ↦ some (at + 1)
  | false ↦ elim (leb b 63) [
    | true ↦ skip_walk bs b (at + 1)
    | false ↦ elim (leb 0xC0 b) [
      | true ↦ elim bs [ [] ↦ none | _ ∷ _ ↦ some (at + 2) ]
      | false ↦ none
    ]
  ]
]

-- The end of the name at `at`, which may hold pointers.
unfoldable pub skip_name : List ℕ → ℕ → Option ℕ
skip_name msg at = skip_walk (drop at msg) 0 at

-- `(0x21..=0x7E).contains(&b) && b != b'.'`.
abbrev pub is_host_byte : ℕ → Bool
is_host_byte b = leb 0x21 b && leb b 0x7E && not (b == b'.')

-- `*buf.get_mut(n)? = b`: `out` is what stands in `buf[..n]`.
abbrev push_byte : List ℕ → ℕ → Option (List ℕ)
push_byte out b = if ltb (length out) name_max then some (out ++ b ∷ []) else none

-- The loop of `name_text`. Every failure gives `None`, so that a label is looked at byte by byte.
unfoldable pub name_text_walk : List ℕ → ℕ → List ℕ → Option Text
name_text_walk [] pending out = none
name_text_walk (b ∷ bs) (suc pending) out = elim (is_host_byte b) [
  | true ↦ elim (push_byte out (to_ascii_lowercase b)) [
    | some out' ↦ name_text_walk bs pending out'
    | none ↦ none
  ]
  | false ↦ none
]
name_text_walk (b ∷ bs) zero out = elim (b == 0) [
  | true ↦ some out
  | false ↦ elim (if ltb 0 (length out) then push_byte out b'.' else some out) [
    | some out' ↦ name_text_walk bs b out'
    | none ↦ none
  ]
]

-- What is written is ASCII, so `from_utf8` at the end succeeds.
unfoldable pub name_text : List ℕ → Option Text
name_text wire = name_text_walk wire 0 []

-- The loop of `put_name` over the labels. A caller drops the buffer on an error.
unfoldable pub put_labels : List ℕ → ℕ → List Text → Result (List ℕ × ℕ)
put_labels out at [] = ok (out, at)
put_labels out at (label ∷ labels) =
    if length label == 0 || ltb label_max (length label)
    then err bad_name
    else elim (overwrite out at (length label ∷ label)) [
      | some out' ↦ put_labels out' (at + (1 + length label)) labels
      | none ↦ err no_room
    ]

-- The nul label, and the length of the whole.
unfoldable pub end_name : ℕ → List ℕ → ℕ → Result (List ℕ × ℕ)
end_name start out at = elim (overwrite out at (0 ∷ [])) [
  | none ↦ err no_room
  | some out' ↦ if ltb name_max (at + 1 - start) then err bad_name else ok (out', at + 1)
]

-- Writes `name` from `at` on; gives the buffer and the end.
unfoldable pub put_name : List ℕ → ℕ → Text → Result (List ℕ × ℕ)
put_name out at name =
    let bare = without_dot name in
    let labelled =
      if is_empty bare then ok (out, at) else put_labels out at (split (λ c. c == b'.') bare) in
    labelled >>= λ (out', end). end_name at out' end
