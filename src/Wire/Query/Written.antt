-- ===== src/Wire/Query/Written.antt =====
-- src/wire.rs: when `encode_query` succeeds: for a name of labels of 1 to 63 bytes, 255 bytes in all at most, and
-- a buffer that holds the longest query.
use hopdns.Base.{
  ℕ, ◌+◌, ◌-◌, ◌≤◌, Bool, true, false, ◌||◌, List, [], ◌∷◌, ◌++◌, none, some, ◌≡◌, refl, ap, ◌∙◌,
  arith, ltb, ltb_le, le→leb, ◌==◌, if◌then◌else◌, length, take, drop, overwrite, All,
  length-append,
}
use hopdns.Errors.{Result, ok, ◌>>=◌}
use hopdns.Text.{Text, without_dot, is_empty, split}
use hopdns.Wire.{class_in, u16_bytes}
use hopdns.Wire.Names.{put_labels, end_name, put_name}
use hopdns.Wire.Names.Ends.{overwrite-length}
use hopdns.Wire.Names.Wires.{label_bytes, IsLabel, labels_of, name_bytes}
use hopdns.Wire.Query.{encode_opt, encode_tail, query_head, encode_query}

-- It is written, the buffer keeps its length, and this is the end.
unfoldable pub Wrote : List ℕ → ℕ → Result (List ℕ × ℕ) → Type 0
Wrote out end r = (out' : List ℕ) × (r ≡ ok (out', end)) × (length out' ≡ length out)

overwrite-fits :
    (xs ys : List ℕ) (at : ℕ)
    → at + length ys ≤ length xs
    → (zs : List ℕ) × (overwrite xs at ys ≡ some zs) × (length zs ≡ length xs)
overwrite-fits xs ys at fits =
    let zs = take at xs ++ (ys ++ drop (at + length ys) xs) in
    let placed : overwrite xs at ys ≡ some zs =
      rw (le→leb (at + length ys) (length xs) fits) refl in
    (zs, placed, (overwrite-length xs at ys zs placed).0)

put_labels-Wrote :
    (labels : List Text) (out : List ℕ) (at : ℕ)
    → All IsLabel labels
    → at + length (label_bytes labels) ≤ length out
    → Wrote out (at + length (label_bytes labels)) (put_labels out at labels)
unfolding put_labels Wrote
put_labels-Wrote [] out at shaped fits =
    let same : at ≡ at + 0 = omega arith in (out, ap (λ (n : ℕ). ok (out, n)) same, refl)
put_labels-Wrote (l ∷ ls) out at shaped fits =
    let good : (length l == 0 || ltb 63 (length l)) ≡ false = ground (arith, shaped.0) in
    let size = length-append (length l ∷ l) (label_bytes ls) in
    let (out', placed, same) = overwrite-fits out (length l ∷ l) at (omega (arith, size)) in
    let (out'', rest, same') =
      put_labels-Wrote ls out' (at + (1 + length l)) (shaped.1) (omega (arith, size, same)) in
    let end : at + (1 + length l) + length (label_bytes ls) ≡ at + length (label_bytes (l ∷ ls)) =
      omega (arith, size) in
    (
      out'',
      rw (good, put_labels) (rw placed (rest ∙ ap (λ (n : ℕ). ok (out'', n)) end)),
      same' ∙ same,
    )

end_name-Wrote :
    (out : List ℕ) (start at : ℕ)
    → at + 1 ≤ length out
    → at + 1 - start ≤ 255
    → Wrote out (at + 1) (end_name start out at)
unfolding end_name Wrote
end_name-Wrote out start at fits short =
    let (out', placed, same) = overwrite-fits out (0 ∷ []) at fits in
    (out', rw (placed, end_name) (rw (ltb_le 255 (at + 1 - start) short) refl), same)

put_name-Wrote :
    (out : List ℕ) (at : ℕ) (name : Text)
    → All IsLabel (labels_of (without_dot name))
    → length (name_bytes (labels_of (without_dot name))) ≤ 255
    → at + 255 ≤ length out
    → Wrote out (at + length (name_bytes (labels_of (without_dot name)))) (put_name out at name)
unfolding put_name put_labels Wrote
put_name-Wrote out at name shaped short fits =
    go (is_empty (without_dot name)) (split (λ c. c == b'.') (without_dot name)) shaped short
  where
    labelled : Bool → List Text → List Text
    labelled b pieces = if b then [] else pieces

    first :
        (b : Bool) (pieces : List Text)
        → All IsLabel (labelled b pieces)
        → at + length (label_bytes (labelled b pieces)) ≤ length out
        → Wrote out
            (at + length (label_bytes (labelled b pieces)))
            (if b then ok (out, at) else put_labels out at pieces)
    first true pieces s f =
        let same : at ≡ at + 0 = omega arith in (out, ap (λ (n : ℕ). ok (out, n)) same, refl)
    first false pieces s f = put_labels-Wrote pieces out at s f

    go :
        (b : Bool) (pieces : List Text)
        → All IsLabel (labelled b pieces)
        → length (name_bytes (labelled b pieces)) ≤ 255
        → Wrote out (at + length (name_bytes (labelled b pieces))) (
            (if b then ok (out, at) else put_labels out at pieces) >>= λ (out', end).
            end_name at out' end)
    go b pieces s f =
        let bytes = label_bytes (labelled b pieces) in
        let size = length-append bytes (0 ∷ []) in
        let (out', put, same) = first b pieces s (omega (arith, size)) in
        let (out'', ended, same') =
          end_name-Wrote out' at (at + length bytes) (omega (arith, size, same))
            (omega (arith, size)) in
        let end : at + length bytes + 1 ≡ at + length (bytes ++ 0 ∷ []) = omega (arith, size) in
        (
          out'',
          ap (λ (r : Result (List ℕ × ℕ)). r >>= λ (b', n). end_name at b' n) put
              ∙ (ended ∙ ap (λ (n : ℕ). ok (out'', n)) end),
          same' ∙ same,
        )

-- RFC 1035 section 2.3.4: labels of 1 to 63 bytes, and 255 bytes on the wire.
abbrev pub Encodable : Text → Type 0
Encodable name =
    All IsLabel (labels_of (without_dot name))
    × (length (name_bytes (labels_of (without_dot name))) ≤ 255)

-- A query for such a name is built in any buffer of 282 bytes, and the buffer keeps its length.
pub encode_query-Wrote :
    (id qtype : ℕ) (name : Text) (out : List ℕ)
    → All IsLabel (labels_of (without_dot name))
    → length (name_bytes (labels_of (without_dot name))) ≤ 255
    → 282 ≤ length out
    → Wrote out
        (16 + length (name_bytes (labels_of (without_dot name))))
        (encode_query id name qtype none out)
unfolding encode_query query_head encode_tail encode_opt Wrote
encode_query-Wrote id qtype name out shaped short room =
    let n = length (name_bytes (labels_of (without_dot name))) in
    let (out1, headed, same1) = overwrite-fits out (query_head id) 0 (omega arith) in
    let (out2, named, same2) = put_name-Wrote out1 12 name shaped short (omega (arith, same1)) in
    let (out3, asked, same3) =
      overwrite-fits out2 (u16_bytes qtype ++ u16_bytes class_in) (12 + n)
        (omega (arith, same1, same2, short)) in
    let end : 12 + n + 4 ≡ 16 + n = omega arith in
    (
      out3,
      rw (headed, encode_query)
          (rw (named, encode_query) (rw (asked, encode_tail) (ap (λ (k : ℕ). ok (out3, k)) end))),
      same3 ∙ (same2 ∙ same1),
    )
