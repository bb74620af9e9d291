-- ===== src/Wire/Query/RoundTrip.antt =====
-- src/wire.rs: `parse_query` reads back what `encode_query` builds.
use hopdns.Base.{
  ℕ, ◌+◌, ◌^◌, ◌≤◌, ◌<◌, false, List, [], ◌∷◌, ◌++◌, Option, none, some, ◌≡◌, refl, sym, ap, ◌∙◌,
  arith, ltb, ltb_le, length, take, slice, replicate, All, drop-append, length-append, append_assoc,
}
use hopdns.Errors.{ok}
use hopdns.Text.{Text, without_dot, lowercase}
use hopdns.Wire.{class_in, rtype_opt, be16, u16_bytes}
use hopdns.Wire.Names.{skip_plain_name, skip_name, skip_walk, name_text}
use hopdns.Wire.Names.Read.{HostName, name_text-labels_of}
use hopdns.Wire.Names.Skip.{skip_plain_name-labels}
use hopdns.Wire.Names.Wires.{labels_of, name_bytes, IsLabel}
use hopdns.Wire.Query.{
  Query, query, find_opt, parse_question, parse_counts, parse_query, opt_record, encode_query,
}
use hopdns.Wire.Query.Built.{opt_bytes, opt_count, datagram, encode_query-datagram}
use hopdns.Wire.Reply.Shape.{header}
use hopdns.Wire.Words.{be16-append, slice-append}

-- The EDNS size is 16 bits wide.
abbrev pub Fits : Option ℕ → Type 0
Fits none = Unit
Fits (some size) = size < 2 ^ 16

skip_opt :
    (front : List ℕ) (size : ℕ)
    → skip_name (front ++ opt_record size) (length front) ≡ some (length front + 1)
unfolding skip_name skip_walk opt_record
skip_opt front size = rw (drop-append front (opt_record size)) refl

module _ (id qtype : ℕ) (labels : List Text) (edns : Option ℕ) where
  abbrev name : List ℕ
  name = name_bytes labels

  abbrev msg : List ℕ
  msg = datagram id name qtype edns

  abbrev head : List ℕ
  head = header id 256 1 0 0 (opt_count edns)

  find_opt-datagram : Fits edns → find_opt (opt_count edns) msg (16 + length name) ≡ edns
  unfolding find_opt opt_record
  find_opt-datagram small = go edns refl small
    where
      front : List ℕ
      front = head ++ (name ++ (u16_bytes qtype ++ u16_bytes class_in))

      sized : length front ≡ 16 + length name
      sized = omega (arith, length-append name (u16_bytes qtype ++ u16_bytes class_in))

      msg_is : msg ≡ front ++ opt_bytes edns
      msg_is =
          ap (λ (b : List ℕ). head ++ b)
            (sym (append_assoc name (u16_bytes qtype ++ u16_bytes class_in) (opt_bytes edns)))

      go : (e : Option ℕ) → edns ≡ e → Fits e → find_opt (opt_count e) msg (16 + length name) ≡ e
      go none same h = refl
      go (some size) same h =
          let opt = opt_record size in
          let whole : msg ≡ front ++ opt =
            msg_is ∙ ap (λ (x : Option ℕ). front ++ opt_bytes x) same in
          let named : skip_name msg (16 + length name) ≡ some (17 + length name) =
            ap (λ (b : List ℕ). skip_name b (16 + length name)) whole
            ∙ (ap (skip_name (front ++ opt)) (sym sized)
                ∙ (skip_opt front size
                    ∙ ap (λ (n : ℕ). some (n + 1)) sized
                    ∙ ap some (omega arith))) in
          let word : (xs ys : List ℕ) (n at : ℕ)
              → msg ≡ xs ++ (u16_bytes n ++ ys)
              → at ≡ length xs
              → n < 2 ^ 16
              → be16 msg at ≡ some n =
            λ xs ys n at e l lt. ap (λ (b : List ℕ). be16 b at) e ∙ be16-append xs ys n at l lt in
          let typed =
            word (front ++ 0 ∷ []) (u16_bytes size ++ replicate 6 0) rtype_opt (17 + length name)
              (whole
                ∙ sym (
                    append_assoc front (0 ∷ [])
                      (u16_bytes rtype_opt ++ (u16_bytes size ++ replicate 6 0))))
              (omega (arith, sized, length-append front (0 ∷ []))) (omega arith) in
          let classed =
            word (front ++ 0 ∷ u16_bytes rtype_opt) (replicate 6 0) size (19 + length name)
              (whole
                ∙ sym (
                    append_assoc front (0 ∷ u16_bytes rtype_opt) (u16_bytes size ++ replicate 6 0)))
              (omega (arith, sized, length-append front (0 ∷ u16_bytes rtype_opt))) h in
          let sized_rdata =
            word (front ++ 0 ∷ (u16_bytes rtype_opt ++ (u16_bytes size ++ replicate 4 0))) [] 0
              (25 + length name)
              (whole
                ∙ sym (
                    append_assoc front
                      (0 ∷ (u16_bytes rtype_opt ++ (u16_bytes size ++ replicate 4 0)))
                      (u16_bytes 0 ++ [])))
              (omega (
                arith,
                sized,
                length-append front
                    (0 ∷ (u16_bytes rtype_opt ++ (u16_bytes size ++ replicate 4 0))),
              ))
              (omega arith) in
          let two : 17 + length name + 2 ≡ 19 + length name = omega arith in
          let eight : 17 + length name + 8 ≡ 25 + length name = omega arith in
          rw (named, find_opt) (rw typed (rw two (rw classed (rw eight (rw sized_rdata refl)))))

  -- The query that is read.
  abbrev pub asked : Query
  asked = record {
    id = id;
    flags = 256;
    question = name ++ (u16_bytes qtype ++ u16_bytes class_in);
    qname = name;
    qtype = qtype;
    qclass = class_in;
    edns = edns;
  }

  parse_question-datagram :
      qtype < 2 ^ 16
      → Fits edns
      → All IsLabel labels
      → length name ≤ 255
      → parse_question msg id 256 (opt_count edns) ≡ query asked
  unfolding parse_question
  parse_question-datagram typed fits shaped short =
      let tail = u16_bytes qtype ++ (u16_bytes class_in ++ opt_bytes edns) in
      let end : skip_plain_name msg 12 ≡ some (12 + length name) =
        skip_plain_name-labels labels head tail shaped short (drop-append head (name ++ tail)) in
      let front_size : length (head ++ name) ≡ 12 + length name = omega arith in
      let type_read : be16 msg (12 + length name) ≡ some qtype =
        be16-append (head ++ name) (u16_bytes class_in ++ opt_bytes edns) qtype (12 + length name)
          (omega (arith, front_size)) typed in
      let class_read : be16 msg (14 + length name) ≡ some class_in =
        ap (λ (b : List ℕ). be16 (head ++ b) (14 + length name))
          (sym (append_assoc name (u16_bytes qtype) (u16_bytes class_in ++ opt_bytes edns)))
        ∙ be16-append (head ++ (name ++ u16_bytes qtype)) (opt_bytes edns) class_in
            (14 + length name) (omega (arith, length-append name (u16_bytes qtype)))
            (omega arith) in
      let question_read : slice msg 12 (16 + length name)
          ≡ some (name ++ (u16_bytes qtype ++ u16_bytes class_in)) =
        ap (λ (b : List ℕ). slice (head ++ b) 12 (16 + length name))
          (sym (append_assoc name (u16_bytes qtype ++ u16_bytes class_in) (opt_bytes edns)))
        ∙ slice-append head (name ++ (u16_bytes qtype ++ u16_bytes class_in)) (opt_bytes edns) 12
            (16 + length name) refl
            (omega (arith, length-append name (u16_bytes qtype ++ u16_bytes class_in))) in
      let name_read : slice msg 12 (12 + length name) ≡ some name =
        slice-append head name tail 12 (12 + length name) refl refl in
      let two : 12 + length name + 2 ≡ 14 + length name = omega arith in
      let four : 12 + length name + 4 ≡ 16 + length name = omega arith in
      rw (end, parse_question)
        (rw type_read (
          rw two (
            rw class_read (
              rw four (
                rw question_read (
                  rw name_read (
                    ap (λ (e : Option ℕ). query (record asked { edns = e }))
                      (find_opt-datagram fits))))))))

  pub parse_query-datagram :
      id < 2 ^ 16
      → qtype < 2 ^ 16
      → Fits edns
      → All IsLabel labels
      → length name ≤ 255
      → parse_query msg ≡ query asked
  unfolding parse_query parse_counts
  parse_query-datagram small typed fits shaped short =
      let body = name ++ (u16_bytes qtype ++ (u16_bytes class_in ++ opt_bytes edns)) in
      let counts = u16_bytes 0 ++ (u16_bytes 0 ++ (u16_bytes (opt_count edns) ++ body)) in
      let id_read : be16 msg 0 ≡ some id =
        be16-append [] (u16_bytes 256 ++ (u16_bytes 1 ++ counts)) id 0 refl small in
      let flags_read : be16 msg 2 ≡ some 256 =
        be16-append (u16_bytes id) (u16_bytes 1 ++ counts) 256 2 refl (omega arith) in
      let qd_read : be16 msg 4 ≡ some 1 =
        be16-append (u16_bytes id ++ u16_bytes 256) counts 1 4 refl (omega arith) in
      let an_read : be16 msg 6 ≡ some 0 =
        be16-append (u16_bytes id ++ (u16_bytes 256 ++ u16_bytes 1))
          (u16_bytes 0 ++ (u16_bytes (opt_count edns) ++ body)) 0 6 refl (omega arith) in
      let ns_read : be16 msg 8 ≡ some 0 =
        be16-append (u16_bytes id ++ (u16_bytes 256 ++ (u16_bytes 1 ++ u16_bytes 0)))
          (u16_bytes (opt_count edns) ++ body) 0 8 refl (omega arith) in
      let ar_read : be16 msg 10 ≡ some (opt_count edns) =
        be16-append
          (u16_bytes id ++ (u16_bytes 256 ++ (u16_bytes 1 ++ (u16_bytes 0 ++ u16_bytes 0)))) body
          (opt_count edns) 10 refl (opt_count-lt edns) in
      let none_more : 0 + 0 + opt_count edns ≡ opt_count edns = omega arith in
      let long : ltb (length msg) 12 ≡ false = ltb_le (length msg) 12 (omega arith) in
      rw (id_read, parse_query)
        (rw flags_read (
          rw long (
            rw (qd_read, parse_counts)
              (rw an_read (
                rw ns_read (
                  rw ar_read (
                    ap (parse_question msg id 256) none_more
                    ∙ parse_question-datagram typed fits shaped short)))))))
    where
      opt_count-lt : (e : Option ℕ) → opt_count e < 2 ^ 16
      opt_count-lt none = omega arith
      opt_count-lt (some _) = omega arith

-- When `encode_query` succeeds with an id and a type of 16 bits, an EDNS size of 16 bits or none,
-- and a name of host bytes and dots, `parse_query` reads the bytes it built as a query with that
-- id, the flag RD alone, the name without its last dot in lower case, that type, the class IN and
-- that EDNS size.
pub parse_query-encode_query :
    (id qtype : ℕ) (name : Text) (edns : Option ℕ) (out : List ℕ) (p : List ℕ × ℕ)
    → encode_query id name qtype edns out ≡ ok p
    → id < 2 ^ 16
    → qtype < 2 ^ 16
    → Fits edns
    → HostName (without_dot name)
    → (q : Query) × (parse_query (take (p.1) (p.0)) ≡ query q)
      × (q.id ≡ id)
      × (q.flags ≡ 256)
      × (name_text q.qname ≡ some (lowercase (without_dot name)))
      × (q.qtype ≡ qtype)
      × (q.qclass ≡ 1)
      × (q.edns ≡ edns)
parse_query-encode_query id qtype name edns out p h small typed fits host =
    let (built, shaped, short) = encode_query-datagram id qtype name edns out p h in
    let pieces = labels_of (without_dot name) in
    (
      asked id qtype pieces edns,
      ap parse_query built
          ∙ parse_query-datagram id qtype pieces edns small typed fits shaped short,
      refl,
      refl,
      name_text-labels_of (without_dot name) host shaped short,
      refl,
      refl,
      refl,
    )
