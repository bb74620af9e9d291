-- ===== src/Wire/Decode.antt =====
-- src/wire.rs: the reading of answers, with names that hold pointers.
pub mod Ends
pub mod Pointed
pub mod Addresses
use Prim.Native.Nat.{bit_and}
use hopdns.Base.{
  ℕ, zero, suc, ◌+◌, ◌-◌, ◌*◌, ◌/◌, ◌%◌, Bool, true, false, not, ◌&&◌, List, [], ◌∷◌, ◌++◌, Option,
  none, some, leb, ltb, ◌==◌, if◌then◌else◌, length, get_elem?, slice,
}
use hopdns.Cache.{Ip}
use hopdns.Errors
use hopdns.Errors.{Result, ok, err, malformed, ◌>>=◌}
use hopdns.Text
use hopdns.Text.{Text}
use hopdns.Wire.{
  header_len, name_max, rtype_a, rtype_cname, rtype_soa, aa_bit, tc_bit, from_flags, be16, be32,
}
use hopdns.Wire.Names.{skip_name}

pub data Rdata : Type 0 where
  a : Ip → Rdata
  cname : Text → Rdata
  soa : Text → Text → ℕ → ℕ → ℕ → ℕ → ℕ → Rdata
  other : ℕ → Rdata

pub record Record : Type 0 where
  pub name : Text
  pub rtype : ℕ
  pub ttl : ℕ
  pub rdata : Rdata

pub record Message : Type 0 where
  pub id : ℕ
  pub flags : ℕ
  pub answers : List Record
  pub authority : List Record
  pub additional : ℕ

unfoldable pub rcode : Message → ℕ
rcode m = from_flags m.flags

unfoldable pub is_authoritative : Message → Bool
is_authoritative m = not (bit_and m.flags aa_bit == 0)

unfoldable pub is_truncated : Message → Bool
is_truncated m = not (bit_and m.flags tc_bit == 0)

unfoldable pub a_of : List Record → List Ip
a_of [] = []
a_of (r ∷ rs) = elim (r.rdata) [
  | Rdata.a ip ↦ ip ∷ a_of rs
  | Rdata.cname _ ↦ a_of rs
  | Rdata.soa _ _ _ _ _ _ _ ↦ a_of rs
  | Rdata.other _ ↦ a_of rs
]

unfoldable pub a_records : Message → List Ip
a_records m = a_of m.answers

-- `char::from(b)` of the bytes of a label, in UTF-8.
unfoldable pub chars_of : List ℕ → Text
chars_of [] = []
chars_of (b ∷ bs) =
    if ltb b 128 then b ∷ chars_of bs else (0xC0 + b / 64) ∷ (0x80 + b % 64) ∷ chars_of bs

-- `end.unwrap_or(n)`.
abbrev pub or_end : Option ℕ → ℕ → ℕ
or_end none n = n
or_end (some e) n = e

-- The loop of `read_name`; `none` is a loop that did not end. A label takes one of `labels`, and gives
-- `jumps` back; a pointer takes one of `jumps`.
unfoldable pub read_name_walk : ℕ → ℕ → List ℕ → ℕ → Text → Option ℕ → Option (Result (Text × ℕ))
read_name_walk zero jumps msg pos name end = none
read_name_walk (suc labels) zero msg pos name end = none
read_name_walk (suc labels) (suc jumps) msg pos name end = elim (get_elem? msg pos) [
  | none ↦ some (err malformed)
  | some len ↦ elim (len == 0) [
    | true ↦ some (ok (if Text.is_empty name then b'.' ∷ [] else name, or_end end (pos + 1)))
    | false ↦ elim (leb len 63) [
      | true ↦ elim (slice msg (pos + 1) (pos + 1 + len)) [
        | none ↦ some (err malformed)
        | some label ↦ elim (ltb name_max (length (name ++ (chars_of label ++ b'.' ∷ [])))) [
          | true ↦ some (err malformed)
          | false ↦
              read_name_walk labels (suc (length msg)) msg (pos + 1 + len)
                (name ++ (chars_of label ++ b'.' ∷ [])) end
        ]
      ]
      | false ↦ elim (leb 0xC0 len) [
        | false ↦ some (err malformed)
        | true ↦ elim (be16 msg pos) [
          | none ↦ some (err malformed)
          | some word ↦ elim (leb pos (bit_and word 0x3FFF)) [
            | true ↦ some (err malformed)
            | false ↦
                read_name_walk (suc labels) jumps msg (bit_and word 0x3FFF) name
                  (some (or_end end (pos + 2)))
          ]
        ]
      ]
    ]
  ]
]

unfoldable pub read_name : List ℕ → ℕ → Result (Text × ℕ)
read_name msg at = elim (read_name_walk 256 (suc (length msg)) msg at [] none) [
  | some r ↦ r
  | none ↦ err malformed
]

-- `.ok_or(Malformed)`.
abbrev pub or_malformed {ℓ} : {A : Type ℓ} → Option A → Result A
or_malformed none = err malformed
or_malformed (some x) = ok x

unfoldable pub read_soa : List ℕ → ℕ → Result Rdata
read_soa msg rd = do
  (mname, p) ← read_name msg rd
  (rname, p') ← read_name msg p
  serial ← or_malformed (be32 msg p')
  refresh ← or_malformed (be32 msg (p' + 4))
  retry ← or_malformed (be32 msg (p' + 8))
  expire ← or_malformed (be32 msg (p' + 12))
  minimum ← or_malformed (be32 msg (p' + 16))
  ok (Rdata.soa mname rname serial refresh retry expire minimum)

unfoldable pub read_rdata : List ℕ → ℕ → ℕ → List ℕ → Result Rdata
read_rdata msg rd rtype bytes =
    if rtype == rtype_a
    then (if length bytes == 4
        then elim (be32 bytes 0) [ some ip ↦ ok (Rdata.a ip) | none ↦ err malformed ]
        else err malformed)
    else if rtype == rtype_cname
    then (read_name msg rd >>= λ (target, _). ok (Rdata.cname target))
    else if rtype == rtype_soa
    then read_soa msg rd
    else ok (Rdata.other rtype)

unfoldable pub read_record : List ℕ → ℕ → Result (Record × ℕ)
read_record msg start = do
  (name, at) ← read_name msg start
  rtype ← or_malformed (be16 msg at)
  ttl ← or_malformed (be32 msg (at + 4))
  rdlen ← or_malformed (be16 msg (at + 8))
  bytes ← or_malformed (slice msg (at + 10) (at + 10 + rdlen))
  rdata ← read_rdata msg (at + 10) rtype bytes
  ok (record { name = name; rtype = rtype; ttl = ttl; rdata = rdata }, at + 10 + rdlen)

-- The loops of `decode`.
unfoldable pub skip_questions : ℕ → List ℕ → ℕ → Result ℕ
skip_questions zero msg at = ok at
skip_questions (suc n) msg at = elim (skip_name msg at) [
  | none ↦ err malformed
  | some end ↦ skip_questions n msg (end + 4)
]

unfoldable pub read_records : ℕ → List ℕ → ℕ → List Record → Result (List Record × ℕ)
read_records zero msg at out = ok (out, at)
read_records (suc n) msg at out = elim (read_record msg at) [
  | err e ↦ err e
  | ok (r, next) ↦ read_records n msg next (out ++ r ∷ [])
]

unfoldable pub decode : List ℕ → Result Message
decode msg = do
  id ← or_malformed (be16 msg 0)
  flags ← or_malformed (be16 msg 2)
  additional ← or_malformed (be16 msg 10)
  qd ← or_malformed (be16 msg 4)
  an ← or_malformed (be16 msg 6)
  ns ← or_malformed (be16 msg 8)
  at ← skip_questions qd msg header_len
  (answers, at') ← read_records an msg at []
  (authority, _) ← read_records ns msg at' []
  ok (record {
    id = id;
    flags = flags;
    answers = answers;
    authority = authority;
    additional = additional;
  })
