-- ===== src/Wire/Names/Skip.antt =====
-- src/wire.rs: `skip_plain_name` on the bytes that `put_name` writes.
use hopdns.Base.{
  ℕ, suc, ◌+◌, ◌-◌, ◌≤◌, ◌<◌, false, List, [], ◌∷◌, ◌++◌, some, ◌≡◌, refl, ap, ◌∙◌, arith, ltb_le,
  le→leb, ◌==◌, length, drop, All, length-append, append_assoc,
}
use hopdns.Text.{Text}
use hopdns.Wire.Names.{skip_plain_walk, skip_plain_name}
use hopdns.Wire.Names.Wires.{label_bytes, IsLabel, name_bytes}

pub positive : (n : ℕ) → 0 < n → (n == 0) ≡ false
positive n h = ground arith

skip_label :
    (start at : ℕ) (l bs : List ℕ)
    → skip_plain_walk start (l ++ bs) (length l) at ≡ skip_plain_walk start bs 0 (at + length l)
unfolding skip_plain_walk
skip_label start at [] bs = let same : at + 0 ≡ at = omega arith in rw same refl
skip_label start at (b ∷ l) bs =
    let same : at + 1 + length l ≡ at + suc (length l) = omega arith in
    skip_label start (at + 1) l bs ∙ ap (skip_plain_walk start bs 0) same

skip_first :
    (start at : ℕ) (l bs : List ℕ)
    → IsLabel l
    → skip_plain_walk start (length l ∷ (l ++ bs)) 0 at
      ≡ skip_plain_walk start bs 0 (at + 1 + length l)
unfolding skip_plain_walk
skip_first start at l bs (long, few) =
    rw (positive (length l) long, skip_plain_walk)
      (rw (ltb_le 63 (length l) few) (skip_label start (at + 1) l bs))

-- The first label and what is behind it.
pub first_bytes :
    (l : Text) (ls : List Text) (tail : List ℕ)
    → name_bytes (l ∷ ls) ++ tail ≡ length l ∷ (l ++ (name_bytes ls ++ tail))
first_bytes l ls tail = ap (◌∷◌ (length l)) (
    ap (λ (bs : List ℕ). bs ++ tail) (append_assoc l (label_bytes ls) (0 ∷ []))
    ∙ append_assoc l (name_bytes ls) tail)

pub length-first :
    (l : Text) (ls : List Text)
    → length (name_bytes (l ∷ ls)) ≡ 1 + length l + length (name_bytes ls)
length-first l ls = omega (
  arith,
  length-append (length l ∷ l) (label_bytes ls),
  length-append (label_bytes (l ∷ ls)) (0 ∷ []),
  length-append (label_bytes ls) (0 ∷ []),
)

skip_labels :
    (labels : List Text) (start at : ℕ) (tail : List ℕ)
    → All IsLabel labels
    → at + length (name_bytes labels) - start ≤ 255
    → skip_plain_walk start (name_bytes labels ++ tail) 0 at
      ≡ some (at + length (name_bytes labels))
unfolding skip_plain_walk
skip_labels [] start at tail shaped short =
    rw (le→leb (at + 1 - start) 255 short, skip_plain_walk) refl
skip_labels (l ∷ ls) start at tail shaped short =
    let one : at + 1 + length l + length (name_bytes ls) ≡ at + length (name_bytes (l ∷ ls)) =
      omega (arith, length-first l ls) in
    ap (λ (bs : List ℕ). skip_plain_walk start bs 0 at) (first_bytes l ls tail)
    ∙ (skip_first start at l (name_bytes ls ++ tail) (shaped.0)
        ∙ (skip_labels ls start (at + 1 + length l) tail (shaped.1) (omega (arith, one))
            ∙ ap some one))

pub skip_plain_name-labels :
    (labels : List Text) (xs tail : List ℕ)
    → All IsLabel labels
    → length (name_bytes labels) ≤ 255
    → drop (length xs) (xs ++ (name_bytes labels ++ tail)) ≡ name_bytes labels ++ tail
    → skip_plain_name (xs ++ (name_bytes labels ++ tail)) (length xs)
      ≡ some (length xs + length (name_bytes labels))
unfolding skip_plain_name
skip_plain_name-labels labels xs tail shaped short here =
    rw here (skip_labels labels (length xs) (length xs) tail shaped (omega arith))
