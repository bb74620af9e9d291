-- ===== src/Wire/Words.antt =====
-- Words written into a buffer, and read back.
use hopdns.Base.{
  ℕ, suc, ◌+◌, ◌-◌, ◌^◌, ◌≤◌, ◌<◌, List, [], ◌∷◌, ◌++◌, some, ◌≡◌, refl, ap, arith, le→leb, length,
  drop, overwrite, get_elem?, slice, length-append, take-append, drop-append, append_assoc,
}
use hopdns.Wire.{be16, be32, u16_bytes}

module _ {ℓ} {A : Type ℓ} where
  pub drop-append_add : (xs ys : List A) (n : ℕ) → drop (length xs + n) (xs ++ ys) ≡ drop n ys
  drop-append_add [] ys n = let e : 0 + n ≡ n = omega arith in rw e refl
  drop-append_add (x ∷ xs) ys n =
      let e : suc (length xs) + n ≡ suc (length xs + n) = omega arith in
      rw e (drop-append_add xs ys n)

  pub get_elem?-append_add :
      (xs ys : List A) (n : ℕ) → get_elem? (xs ++ ys) (length xs + n) ≡ get_elem? ys n
  get_elem?-append_add [] ys n = let e : 0 + n ≡ n = omega arith in rw e refl
  get_elem?-append_add (x ∷ xs) ys n =
      let e : suc (length xs) + n ≡ suc (length xs + n) = omega arith in
      rw e (get_elem?-append_add xs ys n)

  -- A write at the end of what stands, where there is room behind it.
  pub overwrite-append :
      (xs rest ys : List A) (at : ℕ)
      → at ≡ length xs
      → length ys ≤ length rest
      → overwrite (xs ++ rest) at ys ≡ some ((xs ++ ys) ++ drop (length ys) rest)
  overwrite-append xs rest ys at e h =
      rw
        (
          e,
          le→leb (length xs + length ys) (length (xs ++ rest))
              (omega (arith, length-append xs rest)),
        )
        (rw (take-append, drop-append_add, append_assoc) refl)

  pub slice-append :
      (xs ys zs : List A) (a b : ℕ)
      → a ≡ length xs
      → b ≡ length xs + length ys
      → slice (xs ++ (ys ++ zs)) a b ≡ some ys
  slice-append xs ys zs a b ea eb =
      let width : length xs + length ys - length xs ≡ length ys = omega arith in
      let low = le→leb (length xs) (length xs + length ys) (omega arith) in
      let high =
        le→leb (length xs + length ys) (length (xs ++ (ys ++ zs)))
          (omega (arith, length-append xs (ys ++ zs), length-append ys zs)) in
      rw (ea, eb) (rw (low, high, width) (rw (drop-append, take-append) refl))

pub be16-append :
    (xs ys : List ℕ) (n at : ℕ)
    → at ≡ length xs
    → n < 2 ^ 16
    → be16 (xs ++ (u16_bytes n ++ ys)) at ≡ some n
unfolding be16
be16-append xs ys n at e h =
    let first = get_elem?-append_add xs (u16_bytes n ++ ys) 0 in
    let second = get_elem?-append_add xs (u16_bytes n ++ ys) 1 in
    let at_zero : at ≡ length xs + 0 = omega arith in
    let at_one : at + 1 ≡ length xs + 1 = omega arith in
    rw (at_one, second) (rw (at_zero, first) (ap some (omega arith)))

-- A word behind the bytes in front of it.
pub be16-at : (xs ys : List ℕ) (n : ℕ) → be16 (xs ++ ys) (length xs + n) ≡ be16 ys n
unfolding be16
be16-at xs ys n =
    let next : length xs + n + 1 ≡ length xs + (n + 1) = omega arith in
    rw (next, get_elem?-append_add xs ys (n + 1)) (rw (get_elem?-append_add xs ys n) refl)

pub be32-at : (xs ys : List ℕ) (n : ℕ) → be32 (xs ++ ys) (length xs + n) ≡ be32 ys n
unfolding be32
be32-at xs ys n =
    let one : length xs + n + 1 ≡ length xs + (n + 1) = omega arith in
    let two : length xs + n + 2 ≡ length xs + (n + 2) = omega arith in
    let three : length xs + n + 3 ≡ length xs + (n + 3) = omega arith in
    rw (one, get_elem?-append_add xs ys (n + 1))
      (rw (two, get_elem?-append_add xs ys (n + 2))
        (rw (three, get_elem?-append_add xs ys (n + 3)) (rw (get_elem?-append_add xs ys n) refl)))
