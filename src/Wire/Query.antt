-- ===== src/Wire/Query.antt =====
-- src/wire.rs: a query read from a datagram, and a query built.
pub mod Laws
pub mod Built
pub mod RoundTrip
pub mod Ends
pub mod Refused
pub mod Written
use Prim.Native.Nat.{bit_and}
use hopdns.Base.{
  ℕ, zero, suc, ◌+◌, ◌/◌, ◌^◌, Bool, true, false, not, ◌||◌, List, [], ◌∷◌, ◌++◌, Option, none,
  some, ltb, ◌==◌, if◌then◌else◌, length, slice, overwrite, replicate,
}
use hopdns.Errors.{Result, ok, err, no_room}
use hopdns.Text.{Text}
use hopdns.Wire.{
  Rcode, form_err, not_imp, header_len, opt_len, rtype_opt, class_in, qr_bit, rd_bit, be16,
  u16_bytes,
}
use hopdns.Wire.Names.{skip_plain_name, skip_name, put_name}

-- A `Query` borrows the datagram; here it holds the bytes.
pub record Query : Type 0 where
  pub id : ℕ
  pub flags : ℕ
  pub question : List ℕ
  pub qname : List ℕ
  pub qtype : ℕ
  pub qclass : ℕ
  pub edns : Option ℕ

pub data Bad : Type 0 where
  drop : Bad
  reply : ℕ → ℕ → Rcode → Bad

-- `Result<Query, Bad>`.
pub data Parsed : Type 0 where
  query : Query → Parsed
  bad : Bad → Parsed

-- `let (Some(x), ..) = .. else { return Err(bad) }`.
abbrev pub or_bad {ℓ} : {A : Type ℓ} → Option A → Bad → (A → Parsed) → Parsed
or_bad none b f = bad b
or_bad (some a) b f = f a

-- The loop of `find_opt`, over the records that are left.
unfoldable pub find_opt : ℕ → List ℕ → ℕ → Option ℕ
find_opt zero msg at = none
find_opt (suc count) msg at = elim (skip_name msg at) [
  | none ↦ none
  | some name_end ↦ elim (be16 msg name_end) [
    | none ↦ none
    | some rtype ↦ elim (be16 msg (name_end + 2)) [
      | none ↦ none
      | some class ↦ elim (be16 msg (name_end + 8)) [
        | none ↦ none
        | some rdlen ↦ elim (rtype == rtype_opt) [
          | true ↦ some class
          | false ↦ find_opt count msg (name_end + 10 + rdlen)
        ]
      ]
    ]
  ]
]

-- The question section: the name, the type, the class.
unfoldable pub parse_question : List ℕ → ℕ → ℕ → ℕ → Parsed
parse_question msg id flags rrs =
    let formerr = reply id flags form_err in
    or_bad (skip_plain_name msg header_len) formerr λ name_end.
      or_bad (be16 msg name_end) formerr λ qtype. or_bad (be16 msg (name_end + 2)) formerr λ qclass.
        let q_end = name_end + 4 in
        or_bad (slice msg header_len q_end) formerr λ question.
          or_bad (slice msg header_len name_end) formerr λ qname. query (record {
            id = id;
            flags = flags;
            question = question;
            qname = qname;
            qtype = qtype;
            qclass = qclass;
            edns = find_opt rrs msg q_end;
          })

-- The header of a query: the opcode and the counts.
unfoldable pub parse_counts : List ℕ → ℕ → ℕ → Parsed
parse_counts msg id flags =
    let formerr = reply id flags form_err in
    if not (bit_and (flags / 2 ^ 11) 0xF == 0)
    then bad (reply id flags not_imp)
    else or_bad (be16 msg 4) formerr λ qd. or_bad (be16 msg 6) formerr λ an.
      or_bad (be16 msg 8) formerr λ ns.
        or_bad (be16 msg 10) formerr
          λ ar. if not (qd == 1) then bad formerr else parse_question msg id flags (an + ns + ar)

unfoldable pub parse_query : List ℕ → Parsed
parse_query msg = or_bad (be16 msg 0) drop λ id. or_bad (be16 msg 2) drop λ flags.
    if ltb (length msg) header_len || not (bit_and flags qr_bit == 0)
    then bad drop
    else parse_counts msg id flags

-- `get_mut(at..at + 11)`, `fill(0)`, and the type and the size written over it.
unfoldable pub opt_record : ℕ → List ℕ
opt_record size = 0 ∷ (u16_bytes rtype_opt ++ (u16_bytes size ++ replicate 6 0))

unfoldable pub encode_opt : Option ℕ → List ℕ → ℕ → Result (List ℕ × ℕ)
encode_opt none out at = ok (out, at)
encode_opt (some size) out at = elim (overwrite out at (opt_record size)) [
  | none ↦ err no_room
  | some out' ↦
      ok (elim (overwrite out' 10 (u16_bytes 1)) [ some out'' ↦ out'' | none ↦ out' ], at + opt_len)
]

unfoldable pub encode_tail : ℕ → Option ℕ → List ℕ → ℕ → Result (List ℕ × ℕ)
encode_tail qtype edns out at = elim (overwrite out at (u16_bytes qtype ++ u16_bytes class_in)) [
  | none ↦ err no_room
  | some out' ↦ encode_opt edns out' (at + 4)
]

-- `id`, RD and one question in a header that is zero for the rest.
unfoldable pub query_head : ℕ → List ℕ
query_head id = u16_bytes id ++ (u16_bytes rd_bit ++ (u16_bytes 1 ++ replicate 6 0))

-- The buffer and the length. A caller drops the buffer on an error.
unfoldable pub encode_query : ℕ → Text → ℕ → Option ℕ → List ℕ → Result (List ℕ × ℕ)
encode_query id name qtype edns out = elim (overwrite out 0 (query_head id)) [
  | none ↦ err no_room
  | some out' ↦ elim (put_name out' header_len name) [
    | err e ↦ err e
    | ok (out'', at) ↦ encode_tail qtype edns out'' at
  ]
]
