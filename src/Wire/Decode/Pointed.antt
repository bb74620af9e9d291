-- ===== src/Wire/Decode/Pointed.antt =====
-- src/wire.rs: `read_name` on a pointer to the name of the question, and `skip_name` on that name.
use hopdns.Base.{
  ℕ, zero, suc, ◌+◌, ◌≤◌, ◌<◌, true, false, List, [], ◌∷◌, ◌++◌, Option, none, some, ◌≡◌, refl, sym,
  ap, ◌∙◌, arith, leb, ltb, ltb_le, le→leb, length, drop, get_elem?, slice, All, length-append,
  append_assoc,
}
use hopdns.Errors.{Result, ok, err, malformed}
use hopdns.Text.{Text}
use hopdns.Wire.{be16, name_max}
use hopdns.Wire.Decode.{read_name_walk, read_name, chars_of}
use hopdns.Wire.Names.{skip_walk, skip_name}
use hopdns.Wire.Names.Read.{IsHost}
use hopdns.Wire.Names.Skip.{positive, first_bytes, length-first}
use hopdns.Wire.Names.Wires.{label_bytes, IsLabel, name_bytes}
use hopdns.Wire.Words.{get_elem?-append_add, slice-append}

-- The bytes of a host name are characters of one byte.
chars_of-host : (l : Text) → IsHost l → chars_of l ≡ l
unfolding chars_of
chars_of-host [] host = refl
chars_of-host (b ∷ l) host =
    let plain : ltb b 128 ≡ true = ground (arith, host.0) in
    rw (plain, chars_of) (ap (◌∷◌ b) (chars_of-host l (host.1)))

skip_pending :
    (l bs : List ℕ) (at : ℕ) → skip_walk (l ++ bs) (length l) at ≡ skip_walk bs 0 (at + length l)
unfolding skip_walk
skip_pending [] bs at = let same : at + 0 ≡ at = omega arith in rw same refl
skip_pending (b ∷ l) bs at =
    let same : at + 1 + length l ≡ at + suc (length l) = omega arith in
    skip_pending l bs (at + 1) ∙ ap (skip_walk bs 0) same

skip_labels :
    (labels : List Text) (tail : List ℕ) (at : ℕ)
    → All IsLabel labels
    → skip_walk (name_bytes labels ++ tail) 0 at ≡ some (at + length (name_bytes labels))
unfolding skip_walk
skip_labels [] tail at shaped = refl
skip_labels (l ∷ ls) tail at shaped =
    let one : at + 1 + length l + length (name_bytes ls) ≡ at + length (name_bytes (l ∷ ls)) =
      omega (arith, length-first l ls) in
    ap (λ (bs : List ℕ). skip_walk bs 0 at) (first_bytes l ls tail)
    ∙ (rw (positive (length l) (shaped.0.0), skip_walk)
        (rw (le→leb (length l) 63 (shaped.0.1)) (
          skip_pending l (name_bytes ls ++ tail) (at + 1)
          ∙ (skip_labels ls tail (at + 1 + length l) (shaped.1) ∙ ap some one))))

pub skip_name-labels :
    (labels : List Text) (tail msg : List ℕ) (at : ℕ)
    → All IsLabel labels
    → drop at msg ≡ name_bytes labels ++ tail
    → skip_name msg at ≡ some (at + length (name_bytes labels))
unfolding skip_name
skip_name-labels labels tail msg at shaped here = rw here (skip_labels labels tail at shaped)

-- The labels of a name are read to its end, behind a pointer.
module _ (msg tail : List ℕ) (end : ℕ) where
  read_labels :
      (labels : List Text) (xs : List ℕ) (fuel jumps : ℕ) (name : Text)
      → msg ≡ xs ++ (name_bytes labels ++ tail)
      → All IsLabel labels
      → All IsHost labels
      → length (name_bytes labels) ≤ fuel
      → 0 < jumps
      → length name + length (name_bytes labels) ≤ 256
      → (t : Text) × (read_name_walk fuel jumps msg (length xs) name (some end)
          ≡ some (ok (t, end)))
  unfolding read_name_walk
  read_labels labels xs fuel zero name e shaped host enough some_jump short = absurd (omega arith)
  read_labels [] xs zero (suc jumps) name e shaped host enough some_jump short =
      absurd (omega arith)
  read_labels [] xs (suc fuel) (suc jumps) name e shaped host enough some_jump short =
      let same : length xs ≡ length xs + 0 = omega arith in
      let read : get_elem? msg (length xs) ≡ some 0 =
        ap (λ (b : List ℕ). get_elem? b (length xs)) e
        ∙ (ap (get_elem? (xs ++ 0 ∷ tail)) same ∙ get_elem?-append_add xs (0 ∷ tail) 0) in
      rw (read, read_name_walk) (_, refl)
  read_labels (l ∷ ls) xs zero (suc jumps) name e shaped host enough some_jump short =
      absurd (omega (arith, length-first l ls))
  read_labels (l ∷ ls) xs (suc fuel) (suc jumps) name e shaped host enough some_jump short =
      let behind = name_bytes ls ++ tail in
      let whole : msg ≡ xs ++ length l ∷ (l ++ behind) =
        e ∙ ap (λ (b : List ℕ). xs ++ b) (first_bytes l ls tail) in
      let same : length xs ≡ length xs + 0 = omega arith in
      let read : get_elem? msg (length xs) ≡ some (length l) =
        ap (λ (b : List ℕ). get_elem? b (length xs)) whole
        ∙ (ap (get_elem? (xs ++ length l ∷ (l ++ behind))) same
            ∙ get_elem?-append_add xs (length l ∷ (l ++ behind)) 0) in
      let split : msg ≡ (xs ++ length l ∷ []) ++ (l ++ behind) =
        whole ∙ sym (append_assoc xs (length l ∷ []) (l ++ behind)) in
      let next : msg ≡ (xs ++ length l ∷ l) ++ behind =
        whole ∙ sym (append_assoc xs (length l ∷ l) behind) in
      let label : slice msg (length xs + 1) (length xs + 1 + length l) ≡ some l =
        ap (λ (b : List ℕ). slice b (length xs + 1) (length xs + 1 + length l)) split
        ∙ slice-append (xs ++ length l ∷ []) l behind (length xs + 1) (length xs + 1 + length l)
            (omega (arith, length-append xs (length l ∷ [])))
            (omega (arith, length-append xs (length l ∷ []))) in
      let name' = name ++ (chars_of l ++ b'.' ∷ []) in
      let grown : length name' ≡ length name + length l + 1 = omega (
        arith,
        length-append name (chars_of l ++ b'.' ∷ []),
        length-append (chars_of l) (b'.' ∷ []),
        ap length (chars_of-host l (host.0)),
      ) in
      let more : 1 ≤ length (name_bytes ls) =
        omega (arith, length-append (label_bytes ls) (0 ∷ [])) in
      let fits : ltb name_max (length name') ≡ false =
        ltb_le 255 (length name') (omega (arith, length-first l ls)) in
      let there : length (xs ++ length l ∷ l) ≡ length xs + 1 + length l =
        omega (arith, length-append xs (length l ∷ l)) in
      let (t, ended) =
        read_labels ls (xs ++ length l ∷ l) fuel (suc (length msg)) name' next (shaped.1) (host.1)
          (omega (arith, length-first l ls)) (omega arith) (omega (arith, length-first l ls)) in
      (
        t,
        rw (read, read_name_walk)
            (rw (positive (length l) (shaped.0.0)) (
              rw (le→leb (length l) 63 (shaped.0.1)) (
                rw label (
                  rw fits (
                    ap (λ (n : ℕ). read_name_walk fuel (suc (length msg)) msg n name' (some end))
                      (sym there)
                    ∙ ended))))),
      )

walk_pointer :
    (msg : List ℕ) (at labels jumps : ℕ) (name : Text)
    → 12 < at
    → get_elem? msg at ≡ some 0xC0
    → be16 msg at ≡ some 0xC00C
    → read_name_walk (suc labels) (suc jumps) msg at name none
      ≡ read_name_walk (suc labels) jumps msg 12 name (some (at + 2))
unfolding read_name_walk
walk_pointer msg at labels jumps name far first word =
    let back : leb at 12 ≡ false = ground arith in
    rw (first, read_name_walk) (rw word (rw back refl))

-- A pointer to the name of the question, behind the twelve bytes of the header.
pub read_name-pointer :
    (labels : List Text) (head tail msg : List ℕ) (at : ℕ)
    → msg ≡ head ++ (name_bytes labels ++ tail)
    → length head ≡ 12
    → All IsLabel labels
    → All IsHost labels
    → length (name_bytes labels) ≤ 255
    → 12 < at
    → get_elem? msg at ≡ some 0xC0
    → be16 msg at ≡ some 0xC00C
    → (t : Text) × (read_name msg at ≡ ok (t, at + 2))
unfolding read_name
read_name-pointer labels head tail msg at e size shaped host short far first word =
    let some_byte : 0 < length msg =
      omega (arith, ap length e, length-append head (name_bytes labels ++ tail)) in
    let (t, ended) =
      read_labels msg tail (at + 2) labels head 256 (length msg) [] e shaped host (omega arith)
        some_byte (omega arith) in
    let from : read_name_walk 256 (length msg) msg 12 [] (some (at + 2)) ≡ some (ok (t, at + 2)) =
      ap (λ (n : ℕ). read_name_walk 256 (length msg) msg n [] (some (at + 2))) (sym size) ∙ ended in
    (
      t,
      ap
          (λ (o : Option (Result (Text × ℕ))). elim o as (λ _. Result (Text × ℕ)) [
            | some r ↦ r
            | none ↦ err malformed
          ])
          (walk_pointer msg at 255 (length msg) [] far first word ∙ from),
    )
