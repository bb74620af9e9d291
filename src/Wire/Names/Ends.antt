-- ===== src/Wire/Names/Ends.antt =====
-- Where `put_name` ends: inside the buffer, and at most 255 bytes behind its start.
use hopdns.Base.{
  ℕ, ◌+◌, ◌-◌, ◌≤◌, Bool, true, false, ◌||◌, List, [], ◌∷◌, ◌++◌, Option, none, some, ◌≡◌, refl,
  ◌∙◌, arith, ltb, leb, leb→le, ◌==◌, subst, if◌then◌else◌, length, take, drop, overwrite,
  length-append, length-take, length-drop,
}
use hopdns.Errors.{Error, Result, ok, err, bad_name, no_room, >>=-eq-ok}
use hopdns.Text.{Text, without_dot, is_empty, split}
use hopdns.Wire.{name_max, label_max}
use hopdns.Wire.Names.{put_labels, end_name, put_name}

-- `.ok_or(NoRoom)?` and what stands behind it.
pub room_or-eq-ok :
    {A B : Type 0} (o : Option A) (e : Error) (f : A → Result B) (b : B)
    → (elim o [ none ↦ err e | some a ↦ f a ]) ≡ ok b
    → (a : A) × (o ≡ some a) × (f a ≡ ok b)
room_or-eq-ok none e f b h = cc
room_or-eq-ok (some a) e f b h = (a, refl, h)

-- `?` on what a write gives, and what stands behind it.
pub written-eq-ok :
    (o : Result (List ℕ × ℕ)) (f : List ℕ → ℕ → Result (List ℕ × ℕ)) (p : List ℕ × ℕ)
    → (elim o as (λ _. Result (List ℕ × ℕ)) [ err e ↦ err e | ok (b, at) ↦ f b at ]) ≡ ok p
    → (q : List ℕ × ℕ) × (o ≡ ok q) × (f (q.0) (q.1) ≡ ok p)
written-eq-ok (err e) f p h = cc
written-eq-ok (ok q) f p h = (q, refl, h)

-- An early return.
pub guard-eq-ok :
    {B : Type 0} (c : Bool) (e : Error) (x : Result B) (b : B)
    → (if c then err e else x) ≡ ok b
    → (c ≡ false) × (x ≡ ok b)
guard-eq-ok true e x b h = cc
guard-eq-ok false e x b h = (refl, h)

pub cond-eq-some :
    {B : Type 0} (c : Bool) (x b : B) → (if c then some x else none) ≡ some b → (c ≡ true) × (x ≡ b)
cond-eq-some true x b h = (refl, cc)
cond-eq-some false x b h = cc

-- A write in place keeps the length, and was inside it.
pub overwrite-length :
    {A : Type 0} (xs : List A) (at : ℕ) (ys zs : List A)
    → overwrite xs at ys ≡ some zs
    → (length zs ≡ length xs) × (at + length ys ≤ length xs)
overwrite-length {A} xs at ys zs h =
    let written : List A = take at xs ++ (ys ++ drop (at + length ys) xs) in
    let (inside, same) = cond-eq-some (leb (at + length ys) (length xs)) written zs h in
    let fits = leb→le (at + length ys) (length xs) inside in
    (
      subst (λ (ws : List A). length ws ≡ length xs) same
          (omega (
            arith,
            length-append (take at xs) (ys ++ drop (at + length ys) xs),
            length-append ys (drop (at + length ys) xs),
            length-take at xs,
            length-drop (at + length ys) xs,
          )),
      fits,
    )

-- The buffer keeps its length, and the end lies between the start and the buffer's end.
abbrev pub EndsIn : List ℕ → ℕ → List ℕ × ℕ → Type 0
EndsIn out at (out', end) = (length out' ≡ length out) × (at ≤ end) × (end ≤ length out)

put_labels-EndsIn :
    (labels : List Text) (out : List ℕ) (at : ℕ) (p : List ℕ × ℕ)
    → at ≤ length out
    → put_labels out at labels ≡ ok p
    → EndsIn out at p
unfolding put_labels
put_labels-EndsIn [] out at p le h =
    let e : (out, at) ≡ p = cc in
    subst (λ (q : List ℕ × ℕ). EndsIn out at q) e (refl, omega arith, le)
put_labels-EndsIn (l ∷ ls) out at p le h =
    let written = guard-eq-ok (length l == 0 || ltb label_max (length l)) bad_name _ p h in
    let (out', placed, later) =
      room_or-eq-ok (overwrite out at (length l ∷ l)) no_room
        (λ out'. put_labels out' (at + (1 + length l)) ls) p written.1 in
    let (same, fits) = overwrite-length out at (length l ∷ l) out' placed in
    let (same', low, high) =
      put_labels-EndsIn ls out' (at + (1 + length l)) p (omega arith) later in
    (same' ∙ same, omega arith, omega arith)

end_name-EndsIn :
    (start : ℕ) (out : List ℕ) (at : ℕ) (p : List ℕ × ℕ)
    → end_name start out at ≡ ok p
    → EndsIn out at p × p.1 - start ≤ 255
unfolding end_name
end_name-EndsIn start out at p h =
    let (out', placed, later) =
      room_or-eq-ok (overwrite out at (0 ∷ [])) no_room
        (λ out'. if ltb name_max (at + 1 - start) then err bad_name else ok (out', at + 1)) p h in
    let (same, fits) = overwrite-length out at (0 ∷ []) out' placed in
    let (short, ended) =
      guard-eq-ok (ltb name_max (at + 1 - start)) bad_name (ok (out', at + 1)) p later in
    let e : (out', at + 1) ≡ p = cc in
    subst (λ (q : List ℕ × ℕ). EndsIn out at q × q.1 - start ≤ 255) e
      ((same, omega arith, omega arith), ground arith)

labelled-EndsIn :
    (empty : Bool) (labels : List Text) (out : List ℕ) (at : ℕ) (p : List ℕ × ℕ)
    → at ≤ length out
    → (if empty then ok (out, at) else put_labels out at labels) ≡ ok p
    → EndsIn out at p
labelled-EndsIn true labels out at p le h =
    let e : (out, at) ≡ p = cc in
    subst (λ (q : List ℕ × ℕ). EndsIn out at q) e (refl, omega arith, le)
labelled-EndsIn false labels out at p le h = put_labels-EndsIn labels out at p le h

-- A name that was written stands inside the buffer, and has at most 255 bytes.
pub put_name-EndsIn :
    (out : List ℕ) (at : ℕ) (name : Text) (p : List ℕ × ℕ)
    → at ≤ length out
    → put_name out at name ≡ ok p
    → EndsIn out at p × p.1 - at ≤ 255
unfolding put_name
put_name-EndsIn out at name p le h =
    let bare = without_dot name in
    let labels = split (λ c. c == b'.') bare in
    let ((out', end), labelled, ended) =
      >>=-eq-ok (if is_empty bare then ok (out, at) else put_labels out at labels)
        (λ (out', end). end_name at out' end) h in
    let (same, low, high) = labelled-EndsIn (is_empty bare) labels out at (out', end) le labelled in
    let ((same', low', high'), short) = end_name-EndsIn at out' end p ended in
    ((same' ∙ same, omega arith, omega arith), short)
