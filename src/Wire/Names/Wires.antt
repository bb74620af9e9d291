-- ===== src/Wire/Names/Wires.antt =====
-- src/wire.rs: the bytes that `put_name` writes.
use hopdns.Base.{
  ℕ, ◌+◌, ◌-◌, ◌≤◌, ◌<◌, Bool, true, false, ◌||◌, List, [], ◌∷◌, ◌++◌, none, some, ◌≡◌, refl, sym,
  ◌∙◌, subst, arith, ltb, ◌==◌, if◌then◌else◌, length, drop, overwrite, All, length-append,
  append_assoc, append-nil, length-drop, drop-drop,
}
use hopdns.Errors.{Result, ok, err, bad_name, no_room, >>=-eq-ok}
use hopdns.Text.{Text, without_dot, is_empty, split}
use hopdns.Wire.{name_max, label_max}
use hopdns.Wire.Names.{put_labels, end_name, put_name}
use hopdns.Wire.Names.Ends.{guard-eq-ok, room_or-eq-ok, overwrite-length}
use hopdns.Wire.Words.{overwrite-append}

-- RFC 1035 section 3.1: each label behind its length.
abbrev pub label_bytes : List Text → List ℕ
label_bytes [] = []
label_bytes (l ∷ ls) = (length l ∷ l) ++ label_bytes ls

abbrev pub IsLabel : Text → Type 0
IsLabel l = (0 < length l) × (length l ≤ 63)

-- `p` is the buffer with these bytes behind `xs`, and their end.
pub record Placed (xs rest bytes : List ℕ) (p : List ℕ × ℕ) : Type 0 where
  pub buf_is : p.0 ≡ (xs ++ bytes) ++ drop (length bytes) rest
  pub end_is : p.1 ≡ length xs + length bytes
  pub room : length bytes ≤ length rest

-- A write that succeeds right behind `xs`.
pub overwrite-Placed :
    (xs rest bytes : List ℕ) (at : ℕ) (buf : List ℕ)
    → at ≡ length xs
    → overwrite (xs ++ rest) at bytes ≡ some buf
    → (buf ≡ (xs ++ bytes) ++ drop (length bytes) rest) × (length bytes ≤ length rest)
overwrite-Placed xs rest bytes at buf e h =
    let (_, fits) = overwrite-length (xs ++ rest) at bytes buf h in
    let room : length bytes ≤ length rest = omega (arith, length-append xs rest) in
    let known : some ((xs ++ bytes) ++ drop (length bytes) rest) ≡ some buf =
      sym (overwrite-append xs rest bytes at e room) ∙ h in
    (sym (cc), room)

-- Two writes one behind the other.
Placed-append :
    (xs rest one two : List ℕ) (p : List ℕ × ℕ)
    → length one ≤ length rest
    → Placed (xs ++ one) (drop (length one) rest) two p
    → Placed xs rest (one ++ two) p
Placed-append xs rest one two p room w = record {
  buf_is =
      w.buf_is
      ∙ rw
          (append_assoc xs one two, drop-drop (length one) (length two) rest, length-append one two)
          refl;
  end_is = omega (arith, w.end_is, length-append xs one, length-append one two);
  room = omega (arith, w.room, length-append one two, length-drop (length one) rest);
}

put_labels-Placed :
    (labels : List Text) (xs rest : List ℕ) (at : ℕ) (p : List ℕ × ℕ)
    → at ≡ length xs
    → put_labels (xs ++ rest) at labels ≡ ok p
    → Placed xs rest (label_bytes labels) p × All IsLabel labels
unfolding put_labels
put_labels-Placed [] xs rest at p e h = (
  subst (Placed xs rest []) (let same : (xs ++ rest, at) ≡ p = cc in same)
      (record { buf_is = rw (append-nil xs) refl; end_is = omega arith; room = omega arith }),
  tt,
)
put_labels-Placed (l ∷ ls) xs rest at p e h =
    let (shaped, h1) =
      guard-eq-ok (length l == 0 || ltb label_max (length l)) bad_name
        (elim (overwrite (xs ++ rest) at (length l ∷ l)) [
          | some out' ↦ put_labels out' (at + (1 + length l)) ls
          | none ↦ err no_room
        ])
        p h in
    let (out', written, h2) =
      room_or-eq-ok (overwrite (xs ++ rest) at (length l ∷ l)) no_room
        (λ out'. put_labels out' (at + (1 + length l)) ls) p h1 in
    let (buf_is, room) = overwrite-Placed xs rest (length l ∷ l) at out' e written in
    let h3 = subst (λ (b : List ℕ). put_labels b (at + (1 + length l)) ls ≡ ok p) buf_is h2 in
    let (w, labels) =
      put_labels-Placed ls (xs ++ length l ∷ l) (drop (length (length l ∷ l)) rest)
        (at + (1 + length l)) p (omega (arith, length-append xs (length l ∷ l))) h3 in
    (
      Placed-append xs rest (length l ∷ l) (label_bytes ls) p room w,
      (ground (arith, shaped), labels),
    )

-- The labels of a name without its last dot.
abbrev pub labels_of : Text → List Text
labels_of bare = if is_empty bare then [] else split (λ c. c == b'.') bare

-- The whole name, with the label of no bytes at its end.
abbrev pub name_bytes : List Text → List ℕ
name_bytes labels = label_bytes labels ++ 0 ∷ []

end_name-Placed :
    (xs rest : List ℕ) (start at : ℕ) (p : List ℕ × ℕ)
    → at ≡ length xs
    → start ≤ at
    → end_name start (xs ++ rest) at ≡ ok p
    → Placed xs rest (0 ∷ []) p × (p.1 - start ≤ 255)
unfolding end_name
end_name-Placed xs rest start at p e le h =
    let (out', written, h1) =
      room_or-eq-ok (overwrite (xs ++ rest) at (0 ∷ [])) no_room
        (λ out'. if ltb name_max (at + 1 - start) then err bad_name else ok (out', at + 1)) p h in
    let (buf_is, room) = overwrite-Placed xs rest (0 ∷ []) at out' e written in
    let (short, h2) =
      guard-eq-ok (ltb name_max (at + 1 - start)) bad_name (ok (out', at + 1)) p h1 in
    let same : (out', at + 1) ≡ p = cc in
    subst (λ (q : List ℕ × ℕ). Placed xs rest (0 ∷ []) q × (q.1 - start ≤ 255)) same
      (record { buf_is = buf_is; end_is = omega (arith, e); room = room }, ground arith)

-- What `put_name` leaves: the name's labels on the wire, each of 1 to 63 bytes, 255 bytes in all at most.
pub put_name-Placed :
    (xs rest : List ℕ) (name : Text) (p : List ℕ × ℕ)
    → put_name (xs ++ rest) (length xs) name ≡ ok p
    → Placed xs rest (name_bytes (labels_of (without_dot name))) p
      × All IsLabel (labels_of (without_dot name))
      × (length (name_bytes (labels_of (without_dot name))) ≤ 255)
unfolding put_name put_labels
put_name-Placed xs rest name p h =
    let bare = without_dot name in
    let at = length xs in
    let pieces = split (λ c. c == b'.') bare in
    let labelled : Result (List ℕ × ℕ) =
      if is_empty bare then ok (xs ++ rest, at) else put_labels (xs ++ rest) at pieces in
    let ((out', end), put, h1) =
      >>=-eq-ok labelled (λ (q : List ℕ × ℕ). end_name at (q.0) (q.1)) h in
    let (w, labels) = go (is_empty bare) (out', end) put in
    let bytes = label_bytes (labels_of bare) in
    let ys = xs ++ bytes in
    let h2 = subst (λ (b : List ℕ). end_name at b end ≡ ok p) w.buf_is h1 in
    let ended : end ≡ length ys = omega (arith, w.end_is, length-append xs bytes) in
    let (w', short) =
      end_name-Placed ys (drop (length bytes) rest) at end p ended (omega (arith, w.end_is)) h2 in
    let all = Placed-append xs rest bytes (0 ∷ []) p w.room w' in
    (all, labels, omega (arith, short, all.end_is))
  where
    go :
        (b : Bool) (q : List ℕ × ℕ)
        → (if b
            then ok (xs ++ rest, length xs)
            else put_labels (xs ++ rest) (length xs) (split (λ c. c == b'.') (without_dot name)))
          ≡ ok q
        → Placed xs rest
            (label_bytes (if b then [] else split (λ c. c == b'.') (without_dot name)))
            q
          × All IsLabel (if b then [] else split (λ c. c == b'.') (without_dot name))
    go true q e = put_labels-Placed [] xs rest (length xs) q refl e
    go false q e =
        put_labels-Placed (split (λ c. c == b'.') (without_dot name)) xs rest (length xs) q refl e
