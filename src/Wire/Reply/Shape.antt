-- ===== src/Wire/Reply/Shape.antt =====
-- What a reply under construction holds, as a value: the header's fields and the records.
use hopdns.Base.{
  ℕ, ◌+◌, ◌%◌, ◌^◌, ◌≤◌, ◌<◌, List, ◌++◌, some, ◌≡◌, refl, ap, ◌∙◌, arith, ltb_le, lt→ltb, le→leb,
  length, drop, overwrite, length-append, append_assoc, length-drop, drop-drop,
}
use hopdns.Errors.{ok}
use hopdns.Wire.{qname_ptr, class_in, u16_bytes, u32_bytes}
use hopdns.Wire.Reply.{Reply, reserve, room, ◌>>=◌, ◌>>◌, write, set_count, rr_head, to_u16}
use hopdns.Wire.Words.{overwrite-append}

pub record Image : Type 0 where
  pub id : ℕ
  pub flags : ℕ
  pub qd : ℕ
  pub an : ℕ
  pub ns : ℕ
  pub ar : ℕ
  pub body : List ℕ

-- RFC 1035 section 4.1.1.
abbrev pub header : ℕ → ℕ → ℕ → ℕ → ℕ → ℕ → List ℕ
header id fl qd an ns ar =
    u16_bytes id
    ++ (u16_bytes fl ++ (u16_bytes qd ++ (u16_bytes an ++ (u16_bytes ns ++ u16_bytes ar))))

abbrev pub image_bytes : Image → List ℕ
image_bytes m = header m.id m.flags m.qd m.an m.ns m.ar ++ m.body

-- The buffer holds the message that `m` says, its counts are those of the reply, and there is
-- place left for the OPT record inside the limit.
pub record Shows (r : Reply) (m : Image) : Type 0 where
  pub rest : List ℕ
  pub layout : r.buf ≡ image_bytes m ++ rest
  pub len_is : r.len ≡ length (image_bytes m)
  pub an_is : r.an ≡ m.an
  pub ns_is : r.ns ≡ m.ns
  pub ar_is : r.ar ≡ m.ar
  pub within : r.len + reserve r.edns ≤ r.limit
  pub limit_le : r.limit ≤ length r.buf

abbrev pub plus_one : ℕ → ℕ
plus_one n = (n + 1) % 2 ^ 16

-- The abstract operations on the message.
abbrev pub with_answer : List ℕ → Image → Image
with_answer rec m = record m { an = plus_one m.an; body = m.body ++ rec }

abbrev pub with_authority : List ℕ → Image → Image
with_authority rec m = record m { ns = plus_one m.ns; body = m.body ++ rec }

abbrev pub with_additional : List ℕ → Image → Image
with_additional rec m = record m { ar = plus_one m.ar; body = m.body ++ rec }

abbrev pub with_flags : ℕ → Image → Image
with_flags fl m = record m { flags = fl }

-- The twelve bytes in front of the rdata: a pointer to the question's name, type, class, TTL, length.
abbrev pub rr_bytes : ℕ → ℕ → ℕ → List ℕ
rr_bytes rtype ttl rdlen =
    qname_ptr ++ (u16_bytes rtype ++ (u16_bytes class_in ++ (u32_bytes ttl ++ u16_bytes rdlen)))

pub write-append :
    (r : Reply) (xs rest ys : List ℕ) (at : ℕ)
    → r.buf ≡ xs ++ rest
    → at ≡ length xs
    → length ys ≤ length rest
    → write at ys r ≡ (record r { buf = (xs ++ ys) ++ drop (length ys) rest }, ok tt)
unfolding write
write-append r xs rest ys at b e h =
    rw (ap (λ (buf : List ℕ). overwrite buf at ys) b ∙ overwrite-append xs rest ys at e h, write)
      refl

pub to_u16_ok : (n : ℕ) → n < 2 ^ 16 → to_u16 n ≡ ok n
unfolding to_u16
to_u16_ok n h = rw (lt→ltb n (2 ^ 16) h)

pub rr_head_fits :
    (r : Reply) (xs rest : List ℕ) (rtype ttl rdlen : ℕ)
    → r.buf ≡ xs ++ rest
    → r.len ≡ length xs
    → 12 + rdlen ≤ room r
    → 12 ≤ length rest
    → rdlen < 2 ^ 16
    → rr_head rtype ttl rdlen r
      ≡ (record r { buf = (xs ++ rr_bytes rtype ttl rdlen) ++ drop 12 rest }, ok (r.len + 12))
unfolding rr_head
rr_head_fits r xs rest rtype ttl rdlen b e fits long small =
    let size : length r.buf ≡ length xs + length rest = ap length b ∙ length-append xs rest in
    let front : List ℕ = qname_ptr ++ (u16_bytes rtype ++ (u16_bytes class_in ++ u32_bytes ttl)) in
    let step = write-append r xs rest front r.len b e (omega arith) in
    let r1 : Reply = record r { buf = (xs ++ front) ++ drop 10 rest } in
    let step2 =
      write-append r1 (xs ++ front) (drop 10 rest) (u16_bytes rdlen) (r.len + 10) refl
        (omega (arith, length-append xs front)) (omega (arith, length-drop 10 rest)) in
    rw (ltb_le (room r) (12 + rdlen) fits, rr_head)
      (rw (ltb_le (length r.buf) (r.len + 12) (omega arith)) (
        rw (step, ◌>>◌, ◌>>=◌)
          (rw (to_u16_ok rdlen small)
            (rw step2 (rw (drop-drop 10 2 rest, append_assoc xs front (u16_bytes rdlen)) refl)))))

-- A word set in a buffer that begins with a header.
module _ (id fl qd an ns ar n : ℕ) (xs : List ℕ) where
  pub overwrite_flags :
      overwrite (header id fl qd an ns ar ++ xs) 2 (u16_bytes n)
      ≡ some (header id n qd an ns ar ++ xs)
  overwrite_flags = rw (le→leb 4 (length (header id fl qd an ns ar ++ xs)) (omega arith)) refl

  pub overwrite_qd :
      overwrite (header id fl qd an ns ar ++ xs) 4 (u16_bytes n)
      ≡ some (header id fl n an ns ar ++ xs)
  overwrite_qd = rw (le→leb 6 (length (header id fl qd an ns ar ++ xs)) (omega arith)) refl

  pub overwrite_an :
      overwrite (header id fl qd an ns ar ++ xs) 6 (u16_bytes n)
      ≡ some (header id fl qd n ns ar ++ xs)
  overwrite_an = rw (le→leb 8 (length (header id fl qd an ns ar ++ xs)) (omega arith)) refl

  pub overwrite_ns :
      overwrite (header id fl qd an ns ar ++ xs) 8 (u16_bytes n)
      ≡ some (header id fl qd an n ar ++ xs)
  overwrite_ns = rw (le→leb 10 (length (header id fl qd an ns ar ++ xs)) (omega arith)) refl

  pub overwrite_ar :
      overwrite (header id fl qd an ns ar ++ xs) 10 (u16_bytes n)
      ≡ some (header id fl qd an ns n ++ xs)
  overwrite_ar = rw (le→leb 12 (length (header id fl qd an ns ar ++ xs)) (omega arith)) refl

pub set_count-eq :
    (r : Reply) (at n : ℕ) (buf buf' : List ℕ)
    → r.buf ≡ buf
    → overwrite buf at (u16_bytes n) ≡ some buf'
    → set_count at n r ≡ record r { buf = buf' }
unfolding set_count
set_count-eq r at n buf buf' b e =
    rw (ap (λ (x : List ℕ). overwrite x at (u16_bytes n)) b ∙ e, set_count) refl
