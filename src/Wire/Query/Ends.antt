-- ===== src/Wire/Query/Ends.antt =====
-- src/wire.rs: where `encode_query` ends: inside the buffer.
use hopdns.Base.{
  ℕ, ◌+◌, ◌≤◌, List, ◌++◌, Option, none, some, ◌≡◌, refl, ◌∙◌, arith, inl, inr, subst, length,
  overwrite, Option-cases,
}
use hopdns.Errors.{ok, err, no_room}
use hopdns.Text.{Text}
use hopdns.Wire.{header_len, opt_len, class_in, u16_bytes}
use hopdns.Wire.Names.{put_name}
use hopdns.Wire.Names.Ends.{EndsIn, room_or-eq-ok, written-eq-ok, overwrite-length, put_name-EndsIn}
use hopdns.Wire.Query.{opt_record, encode_opt, encode_tail, query_head, encode_query}

-- A write that may be left out keeps the length.
overwrite_or-length :
    (xs ys : List ℕ) (at : ℕ)
    → length (elim (overwrite xs at ys) as (λ _. List ℕ) [ some zs ↦ zs | none ↦ xs ]) ≡ length xs
overwrite_or-length xs ys at = elim (Option-cases (overwrite xs at ys)) [
  | inl cut ↦ rw cut refl
  | inr (zs, written) ↦ rw written ((overwrite-length xs at ys zs written).0)
]

encode_opt-EndsIn :
    (edns : Option ℕ) (out : List ℕ) (at : ℕ) (p : List ℕ × ℕ)
    → at ≤ length out
    → encode_opt edns out at ≡ ok p
    → EndsIn out at p
unfolding encode_opt opt_record
encode_opt-EndsIn none out at p le h =
    let e : (out, at) ≡ p = cc in
    subst (λ (q : List ℕ × ℕ). EndsIn out at q) e (refl, omega arith, le)
encode_opt-EndsIn (some size) out at p le h =
    let given : List ℕ → List ℕ =
      λ b. elim (overwrite b 10 (u16_bytes 1)) as (λ _. List ℕ) [ some out'' ↦ out'' | none ↦ b ] in
    let (out', written, h1) =
      room_or-eq-ok (overwrite out at (opt_record size)) no_room (λ b. ok (given b, at + opt_len)) p
        h in
    let (same, fits) = overwrite-length out at (opt_record size) out' written in
    let e : (given out', at + opt_len) ≡ p = cc in
    subst (λ (q : List ℕ × ℕ). EndsIn out at q) e
      (overwrite_or-length out' (u16_bytes 1) 10 ∙ same, omega arith, omega arith)

encode_tail-EndsIn :
    (qtype : ℕ) (edns : Option ℕ) (out : List ℕ) (at : ℕ) (p : List ℕ × ℕ)
    → encode_tail qtype edns out at ≡ ok p
    → EndsIn out at p
unfolding encode_tail
encode_tail-EndsIn qtype edns out at p h =
    let words = u16_bytes qtype ++ u16_bytes class_in in
    let (out', written, h1) =
      room_or-eq-ok (overwrite out at words) no_room (λ b. encode_opt edns b (at + 4)) p h in
    let (same, fits) = overwrite-length out at words out' written in
    let (same', low, high) = encode_opt-EndsIn edns out' (at + 4) p (omega arith) h1 in
    (same' ∙ same, omega arith, omega arith)

-- The buffer keeps its length, and what `encode_query` built is inside.
pub encode_query-inside :
    (id qtype : ℕ) (name : Text) (edns : Option ℕ) (out : List ℕ) (p : List ℕ × ℕ)
    → encode_query id name qtype edns out ≡ ok p
    → (length (p.0) ≡ length out) × (p.1 ≤ length (p.0))
unfolding encode_query query_head
encode_query-inside id qtype name edns out p h =
    let (out', written, h1) =
      room_or-eq-ok (overwrite out 0 (query_head id)) no_room
        (λ b. elim (put_name b header_len name) [
          | err e ↦ err e
          | ok (out'', at) ↦ encode_tail qtype edns out'' at
        ])
        p h in
    let (same, fits) = overwrite-length out 0 (query_head id) out' written in
    let (q, put, h2) =
      written-eq-ok (put_name out' header_len name) (λ out'' at. encode_tail qtype edns out'' at) p
        h1 in
    let ((same', low, high), _) = put_name-EndsIn out' 12 name q (omega arith) put in
    let (same'', low', high') = encode_tail-EndsIn qtype edns (q.0) (q.1) p h2 in
    (same'' ∙ (same' ∙ same), omega arith)
