-- ===== src/Wire/Reply.antt =====
-- src/wire.rs: `Reply`, an answer that is built in the caller's buffer. A method gives the new
-- reply with its result: what an error leaves behind is part of the model.
pub mod Shape
pub mod Header
pub mod Finish
pub mod Records
pub mod Places
pub mod Kept
pub mod Sizes
use Prim.Native.Nat.{bit_and, bit_or}
use hopdns.Base.{
  ℕ, zero, suc, ◌+◌, ◌-◌, ◌*◌, ◌%◌, ◌^◌, min, Bool, true, false, List, [], ◌∷◌, ◌++◌, Option, none,
  some, ltb, ◌==◌, if◌then◌else◌, length, take, overwrite, replicate, ◌≡◌, ap,
}
use hopdns.Errors
use hopdns.Errors.{Error, Result, ok, err, no_room, bad_name}
use hopdns.Text.{Text, codes, without_dot}
use hopdns.Wire.{
  Rcode, no_error, rcode_number, header_len, opt_len, edns_max, name_max, qname_ptr, rtype_a,
  rtype_cname, rtype_soa, rtype_opt, class_in, qr_bit, aa_bit, tc_bit, rd_bit, cd_bit, be16,
  u16_bytes, u32_bytes,
}
use hopdns.Wire.Names.{put_name}
use hopdns.Wire.Query.{Query}

pub record Reply : Type 0 where
  pub buf : List ℕ
  pub len : ℕ
  pub limit : ℕ
  pub an : ℕ
  pub ns : ℕ
  pub ar : ℕ
  pub edns : Option ℕ

-- A method of `&mut self` with a `Result`.
abbrev pub M : Type 0 → Type 0
M A = Reply → Reply × Result A

abbrev pub bound : {A B : Type 0} → (A → M B) → Reply × Result A → Reply × Result B
bound f (r, ok x) = f x r
bound f (r, err e) = (r, err e)

infixl 5 ◌>>=◌ ◌>>◌
abbrev pub ◌>>=◌ : {A B : Type 0} → M A → (A → M B) → M B
◌>>=◌ m f r = bound f (m r)

abbrev pub ◌>>◌ : {B : Type 0} → M (Unit {0}) → M B → M B
m >> k = m >>= λ _. k

abbrev pub pure : {A : Type 0} → A → M A
pure a r = (r, ok a)

abbrev pub fail : {A : Type 0} → Error → M A
fail e r = (r, err e)

abbrev pub lift : {A : Type 0} → Result A → M A
lift a r = (r, a)

pub >>=-ok :
    {A B : Type 0} (m : M A) (f : A → M B) (r r' : Reply) (a : A)
    → m r ≡ (r', ok a)
    → (m >>= f) r ≡ f a r'
>>=-ok {A} {B} m f r r' a e = ap (λ (p : Reply × Result A). bound f p) e

pub >>=-err :
    {A B : Type 0} (m : M A) (f : A → M B) (r r' : Reply) (x : Error)
    → m r ≡ (r', err x)
    → (m >>= f) r ≡ (r', err x)
>>=-err {A} {B} m f r r' x e = ap (λ (p : Reply × Result A). bound f p) e

-- `self.buf.get_mut(at..at + n).ok_or(NoRoom)?.copy_from_slice(bytes)`.
pub write : ℕ → List ℕ → M (Unit {0})
write at bytes r = elim (overwrite r.buf at bytes) [
  | some buf' ↦ (record r { buf = buf' }, ok tt)
  | none ↦ (r, err no_room)
]

-- `to_be_bytes` written if the place is there.
unfoldable pub set_count : ℕ → ℕ → Reply → Reply
set_count at n r = elim (overwrite r.buf at (u16_bytes n)) [
  | some buf' ↦ record r { buf = buf' }
  | none ↦ r
]

unfoldable pub flags : Reply → ℕ
flags r = elim (be16 r.buf 2) [ some f ↦ f | none ↦ 0 ]

unfoldable pub set_flags : ℕ → Reply → Reply
set_flags f r = set_count 2 f r

-- `(flags & !0x000F) | rcode`.
unfoldable pub with_rcode : ℕ → Rcode → ℕ
with_rcode f rcode = bit_or (bit_and f 0xFFF0) (rcode_number rcode)

unfoldable pub set_rcode : Rcode → Reply → Reply
set_rcode rcode r = set_flags (with_rcode (flags r) rcode) r

unfoldable pub set_truncated : Reply → Reply
set_truncated r = set_flags (bit_or (flags r) tc_bit) r

-- QR, AA, the code, and the opcode, RD and CD of the question.
unfoldable pub head_flags : ℕ → Rcode → ℕ
head_flags fl rcode =
    bit_or (bit_or (bit_or qr_bit aa_bit) (bit_and fl (bit_or (bit_or 0x7800 rd_bit) cd_bit)))
      (rcode_number rcode)

unfoldable pub bare : List ℕ → ℕ → ℕ → Rcode → ℕ → Result Reply
bare buf id fl rcode limit =
    let limit' = min limit (length buf) in
    if ltb limit' header_len
    then err no_room
    else elim (overwrite buf 0
        (u16_bytes id ++ (u16_bytes (head_flags fl rcode) ++ replicate 8 0))) [
          | none ↦ err no_room
          | some buf' ↦ ok (record {
            buf = buf';
            len = header_len;
            limit = limit';
            an = 0;
            ns = 0;
            ar = 0;
            edns = none;
          })
        ]

-- The room kept for the OPT record.
abbrev pub reserve : Option ℕ → ℕ
reserve (some _) = opt_len
reserve none = 0

-- The question goes behind the header.
pub put_question : Query → Reply → Result Reply
put_question q r =
    let end = header_len + length (q.question) in
    if ltb r.limit (end + reserve q.edns)
    then err no_room
    else elim (overwrite r.buf header_len (q.question)) [
      | none ↦ err no_room
      | some buf' ↦
          ok (record (set_count 4 1 (record r { buf = buf'; len = end })) { edns = q.edns })
    ]

unfoldable pub start : List ℕ → Query → ℕ → Result Reply
start buf q limit =
    Errors.◌>>=◌ (bare buf q.id q.flags no_error (min limit (length buf))) (put_question q)

-- The room that records have, after the place for the OPT record.
unfoldable pub room : Reply → ℕ
room r = r.limit - (r.len + reserve r.edns)

-- `u16::try_from(n)`.
pub to_u16 : ℕ → Result ℕ
to_u16 n = if ltb n (2 ^ 16) then ok n else err no_room

-- The twelve bytes of a record's head; gives the place of the rdata.
pub rr_head : ℕ → ℕ → ℕ → M ℕ
rr_head rtype ttl rdlen r =
    if ltb (room r) (12 + rdlen)
    then (r, err no_room)
    else if ltb (length r.buf) (r.len + 12)
    then (r, err no_room)
    else (do
      write (r.len) (qname_ptr ++ (u16_bytes rtype ++ (u16_bytes class_in ++ u32_bytes ttl)))
      rdlen16 ← lift (to_u16 rdlen)
      write (r.len + 10) (u16_bytes rdlen16)
      pure (r.len + 12))
        r

-- `self.len = end; self.an += 1; self.set_count(6, self.an)`.
pub count_answer : ℕ → Reply → Reply
count_answer end r =
    let an' = (r.an + 1) % 2 ^ 16 in set_count 6 an' (record r { len = end; an = an' })

unfoldable pub answer_a : ℕ → ℕ → M (Unit {0})
answer_a ip ttl = do
  at ← rr_head rtype_a ttl 4
  write at (u32_bytes ip)
  λ r. (count_answer (at + 4) r, ok tt)

unfoldable pub answer_cname : Text → ℕ → M (Unit {0})
answer_cname target ttl = do
  (tmp, n) ← lift (put_name (replicate (name_max + 1) 0) 0 target)
  at ← rr_head rtype_cname ttl n
  write at (take n tmp)
  λ r. (count_answer (at + n) r, ok tt)

-- `prefix` and `zone` as one name; the buffer and the end.
pub put_soa_name : List ℕ → ℕ → Text → Text → Result (List ℕ × ℕ)
put_soa_name out at prefix zone =
    let label = without_dot prefix in
    elim (overwrite out at (length label % 256 ∷ label)) [
      | none ↦ err no_room
      | some out' ↦
          if ltb (length label) 256
          then put_name out' (at + 1 + length label) zone
          else err bad_name
    ]

-- The loop over `[1, ttl, ttl, ttl, ttl]`.
pub put_words : List ℕ → ℕ → List ℕ → Result (List ℕ × ℕ)
put_words out at [] = ok (out, at)
put_words out at (v ∷ vs) = elim (overwrite out at (u32_bytes v)) [
  | none ↦ err no_room
  | some out' ↦ put_words out' (at + 4) vs
]

-- The record of `authority_soa` as it is built in `tmp`, from the last part to the first: the head
-- over the ten bytes behind the owner's name, the numbers, the two names, the owner's name.
pub soa_head : ℕ → ℕ → List ℕ × ℕ → Result (List ℕ × ℕ)
soa_head ttl n (tmp, at) = Errors.◌>>=◌ (to_u16 (at - (n + 10))) λ rdlen.
    elim (overwrite tmp n
      (u16_bytes rtype_soa ++ (u16_bytes class_in ++ (u32_bytes ttl ++ u16_bytes rdlen)))) [
        | none ↦ err no_room
        | some tmp' ↦ ok (tmp', at)
      ]

pub soa_numbers : ℕ → ℕ → List ℕ × ℕ → Result (List ℕ × ℕ)
soa_numbers ttl n (tmp, at) =
    Errors.◌>>=◌ (put_words tmp at (1 ∷ ttl ∷ ttl ∷ ttl ∷ ttl ∷ [])) (soa_head ttl n)

pub soa_mailbox : Text → ℕ → ℕ → List ℕ × ℕ → Result (List ℕ × ℕ)
soa_mailbox zone ttl n (tmp, at) =
    Errors.◌>>=◌ (put_soa_name tmp at (codes "hostmaster.") zone) (soa_numbers ttl n)

pub soa_rdata : Text → ℕ → List ℕ × ℕ → Result (List ℕ × ℕ)
soa_rdata zone ttl (tmp, n) =
    Errors.◌>>=◌ (put_soa_name tmp (n + 10) (codes "ns.") zone) (soa_mailbox zone ttl n)

pub soa_record : Text → ℕ → Result (List ℕ × ℕ)
soa_record zone ttl =
    Errors.◌>>=◌ (put_name (replicate (3 * (name_max + 1) + 20) 0) 0 zone) (soa_rdata zone ttl)

-- `self.len += n; self.ns += 1; self.set_count(8, self.ns)`.
pub count_authority : ℕ → Reply → Reply
count_authority n r =
    let ns' = (r.ns + 1) % 2 ^ 16 in set_count 8 ns' (record r { len = r.len + n; ns = ns' })

pub put_authority : List ℕ → ℕ → M (Unit {0})
put_authority tmp n r =
    if ltb (room r) n
    then (r, err no_room)
    else (do write (r.len) (take n tmp); λ r'. (count_authority n r', ok tt)) r

unfoldable pub authority_soa : Text → ℕ → M (Unit {0})
authority_soa zone ttl = do (tmp, n) ← lift (soa_record zone ttl); put_authority tmp n

unfoldable pub answers : Reply → ℕ
answers r = r.an

abbrev pub opt_reply : List ℕ
opt_reply = 0 ∷ (u16_bytes rtype_opt ++ (u16_bytes edns_max ++ replicate 6 0))

-- `self.len += OPT_LEN; self.ar += 1; self.set_count(10, self.ar)`.
pub count_additional : Reply → Reply
count_additional r =
    let ar' = (r.ar + 1) % 2 ^ 16 in set_count 10 ar' (record r { len = r.len + opt_len; ar = ar' })

-- The buffer with the OPT record, if the question spoke EDNS, and the length of the message.
unfoldable pub finish : Reply → List ℕ × ℕ
finish r =
    let done : Reply = elim (r.edns) [
      | none ↦ r
      | some _ ↦ elim (overwrite r.buf r.len opt_reply) [
        | none ↦ r
        | some buf' ↦ count_additional (record r { buf = buf' })
      ]
    ] in
    (done.buf, done.len)
