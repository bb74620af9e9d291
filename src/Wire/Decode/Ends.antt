-- ===== src/Wire/Decode/Ends.antt =====
-- The loop of `read_name` ends: pointers go back, and labels make the name longer.
use Prim.Native.Nat.{bit_and}
use hopdns.Base.{
  ℕ, zero, suc, ◌+◌, ◌≤◌, ◌<◌, List, [], ◌∷◌, ◌++◌, Option, none, some, ◌≡◌, refl, inl, inr, arith,
  leb, ltb, ◌==◌, length, get_elem?, slice, length-append, Bool-cases, Option-cases,
}
use hopdns.Errors.{Result, err, malformed}
use hopdns.Text.{Text}
use hopdns.Wire.{be16, name_max}
use hopdns.Wire.Decode.{read_name_walk, chars_of, or_end}

-- The walk gives a result.
abbrev pub Ended : Option (Result (Text × ℕ)) → Type 0
Ended o = (r : Result (Text × ℕ)) × (o ≡ some r)

get_elem?-inside : (xs : List ℕ) (n x : ℕ) → get_elem? xs n ≡ some x → n < length xs
get_elem?-inside [] n x h = cc
get_elem?-inside (y ∷ ys) zero x h = omega arith
get_elem?-inside (y ∷ ys) (suc n) x h = omega (arith, get_elem?-inside ys n x h)

pub read_name_walk-Ended :
    (labels jumps : ℕ) (msg : List ℕ) (pos : ℕ) (name : Text) (end : Option ℕ)
    → 256 ≤ labels + length name
    → length name ≤ 255
    → 1 ≤ jumps
    → (pos < length msg → pos < jumps)
    → Ended (read_name_walk labels jumps msg pos name end)
unfolding read_name_walk
read_name_walk-Ended zero jumps msg pos name end l n j p = absurd (omega arith)
read_name_walk-Ended (suc labels) zero msg pos name end l n j p = absurd (omega arith)
read_name_walk-Ended (suc labels) (suc jumps) msg pos name end l n j p =
    elim (Option-cases (get_elem? msg pos)) [
      | inl out ↦ (err malformed, rw (out, read_name_walk) refl)
      | inr (len, read) ↦
          rw (read, read_name_walk)
            (elim (Bool-cases (len == 0)) [
              | inl last ↦ rw last (_, refl)
              | inr more ↦ rw more (elim (Bool-cases (leb len 63)) [
                | inl plain ↦ rw plain (elim (Option-cases (slice msg (pos + 1) (pos + 1 + len))) [
                  | inl cut ↦ rw cut (_, refl)
                  | inr (label, whole) ↦
                      rw whole
                        (elim (Bool-cases
                          (ltb name_max (length (name ++ (chars_of label ++ b'.' ∷ []))))) [
                            | inl long ↦ rw long (_, refl)
                            | inr short ↦ rw short (
                                read_name_walk-Ended labels (suc (length msg)) msg (pos + 1 + len)
                                  (name ++ (chars_of label ++ b'.' ∷ [])) end
                                  (omega (
                                    arith,
                                    length-append name (chars_of label ++ b'.' ∷ []),
                                    length-append (chars_of label) (b'.' ∷ []),
                                  ))
                                  (ground arith) (omega arith) (λ h. omega arith))
                          ])
                ])
                | inr far ↦ rw far (elim (Bool-cases (leb 0xC0 len)) [
                  | inr odd ↦ rw odd (_, refl)
                  | inl pointer ↦ rw pointer (elim (Option-cases (be16 msg pos)) [
                    | inl cut ↦ rw cut (_, refl)
                    | inr (word, whole) ↦
                        rw whole (elim (Bool-cases (leb pos (bit_and word 0x3FFF))) [
                          | inl ahead ↦ rw ahead (_, refl)
                          | inr back ↦
                              let inside = get_elem?-inside msg pos len read in
                              let before : bit_and word 0x3FFF < pos = ground arith in
                              rw back (
                                read_name_walk-Ended (suc labels) jumps msg (bit_and word 0x3FFF)
                                  name (some (or_end end (pos + 2))) l n (omega (arith, p inside))
                                  (λ h. omega (arith, p inside)))
                        ])
                  ])
                ])
              ])
            ])
    ]

-- The loop of `read_name`, with 256 labels and at each of them as many pointers as the message has
-- bytes and one more, ends with a name or an error, for every message and every place in it.
pub read_name-Ended :
    (msg : List ℕ) (at : ℕ) → Ended (read_name_walk 256 (suc (length msg)) msg at [] none)
read_name-Ended msg at =
    read_name_walk-Ended 256 (suc (length msg)) msg at [] none (omega arith) (omega arith)
      (omega arith) (λ h. omega arith)
