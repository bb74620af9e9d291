-- ===== src/Wire/Query/Built.antt =====
-- src/wire.rs: the datagram that `encode_query` builds.
use hopdns.Base.{
  ℕ, ◌+◌, ◌≤◌, List, [], ◌++◌, Option, none, some, ◌≡◌, refl, sym, ap, ◌∙◌, subst, arith, length,
  take, drop, overwrite, All, take-append, length-append, append_assoc,
}
use hopdns.Errors.{Result, ok, err, no_room}
use hopdns.Text.{Text, without_dot}
use hopdns.Wire.{header_len, opt_len, class_in, u16_bytes}
use hopdns.Wire.Names.{put_name}
use hopdns.Wire.Names.Ends.{room_or-eq-ok, written-eq-ok}
use hopdns.Wire.Names.Wires.{labels_of, name_bytes, IsLabel, overwrite-Placed, put_name-Placed}
use hopdns.Wire.Query.{opt_record, encode_opt, encode_tail, query_head, encode_query}
use hopdns.Wire.Reply.Shape.{header, overwrite_ar}

abbrev pub opt_bytes : Option ℕ → List ℕ
opt_bytes none = []
opt_bytes (some size) = opt_record size

abbrev pub opt_count : Option ℕ → ℕ
opt_count none = 0
opt_count (some _) = 1

-- The datagram: header, name, type, class, OPT record.
abbrev pub datagram : ℕ → List ℕ → ℕ → Option ℕ → List ℕ
datagram id name qtype edns =
    header id 256 1 0 0 (opt_count edns)
    ++ (name ++ (u16_bytes qtype ++ (u16_bytes class_in ++ opt_bytes edns)))

encode_opt-datagram :
    (id qtype : ℕ) (name rest : List ℕ) (edns : Option ℕ) (at : ℕ) (p : List ℕ × ℕ)
    → at ≡ 16 + length name
    → encode_opt edns
        ((header id 256 1 0 0 0 ++ (name ++ (u16_bytes qtype ++ u16_bytes class_in))) ++ rest)
        at
      ≡ ok p
    → take (p.1) (p.0) ≡ datagram id name qtype edns
unfolding encode_opt opt_record
encode_opt-datagram id qtype name rest none at p e h =
    let front = header id 256 1 0 0 0 ++ (name ++ (u16_bytes qtype ++ u16_bytes class_in)) in
    let same : (front ++ rest, at) ≡ p = cc in
    let size : at ≡ length front =
      omega (arith, e, length-append name (u16_bytes qtype ++ u16_bytes class_in)) in
    ap (λ (q : List ℕ × ℕ). take (q.1) (q.0)) (sym same)
    ∙ (ap (λ (n : ℕ). take n (front ++ rest)) size ∙ take-append front rest)
encode_opt-datagram id qtype name rest (some size) at p e h =
    let tail = u16_bytes qtype ++ u16_bytes class_in in
    let front = header id 256 1 0 0 0 ++ (name ++ tail) in
    let front' = header id 256 1 0 0 1 ++ (name ++ tail) in
    let opt = opt_record size in
    let (out', written, h1) =
      room_or-eq-ok (overwrite (front ++ rest) at opt) no_room
        (λ out'. ok (
          elim (overwrite out' 10 (u16_bytes 1)) as (λ _. List ℕ) [
            | some out'' ↦ out''
            | none ↦ out'
          ],
          at + opt_len,
        ))
        p h in
    let ended : at ≡ length front = omega (arith, e, length-append name tail) in
    let (out'_is, room) = overwrite-Placed front rest opt at out' ended written in
    let rest' = drop (length opt) rest in
    let counted : overwrite out' 10 (u16_bytes 1) ≡ some ((front' ++ opt) ++ rest') =
      ap (λ (b : List ℕ). overwrite b 10 (u16_bytes 1)) out'_is
      ∙ overwrite_ar id 256 1 0 0 0 1 (((name ++ tail) ++ opt) ++ rest') in
    let given : List ℕ → Option (List ℕ) → Result (List ℕ × ℕ) =
      λ b o. ok (elim o as (λ _. List ℕ) [ some out'' ↦ out'' | none ↦ b ], at + opt_len) in
    let done : ok ((front' ++ opt) ++ rest', at + 11) ≡ ok p = sym (ap (given out') counted) ∙ h1 in
    let same : ((front' ++ opt) ++ rest', at + 11) ≡ p = cc in
    let n : at + 11 ≡ length (front' ++ opt) =
      omega (arith, e, length-append front' opt, length-append name tail) in
    ap (λ (q : List ℕ × ℕ). take (q.1) (q.0)) (sym same)
    ∙ (ap (λ (k : ℕ). take k ((front' ++ opt) ++ rest')) n
        ∙ (take-append (front' ++ opt) rest'
            ∙ ap (λ (b : List ℕ). header id 256 1 0 0 1 ++ b) (append_assoc name tail opt)))

encode_tail-datagram :
    (id qtype : ℕ) (name rest : List ℕ) (edns : Option ℕ) (at : ℕ) (p : List ℕ × ℕ)
    → at ≡ 12 + length name
    → encode_tail qtype edns ((header id 256 1 0 0 0 ++ name) ++ rest) at ≡ ok p
    → take (p.1) (p.0) ≡ datagram id name qtype edns
unfolding encode_tail
encode_tail-datagram id qtype name rest edns at p e h =
    let tail = u16_bytes qtype ++ u16_bytes class_in in
    let front = header id 256 1 0 0 0 ++ name in
    let (out', written, h1) =
      room_or-eq-ok (overwrite (front ++ rest) at tail) no_room
        (λ out'. encode_opt edns out' (at + 4)) p h in
    let (out'_is, room) = overwrite-Placed front rest tail at out' (omega (arith, e)) written in
    let placed : out' ≡ (header id 256 1 0 0 0 ++ (name ++ tail)) ++ drop 4 rest =
      out'_is ∙ ap (λ (b : List ℕ). (header id 256 1 0 0 0 ++ b) ++ drop 4 rest) refl in
    encode_opt-datagram id qtype name (drop 4 rest) edns (at + 4) p (omega (arith, e))
      (subst (λ (b : List ℕ). encode_opt edns b (at + 4) ≡ ok p) placed h1)

-- What is sent is the datagram, with the labels of the name on the wire.
pub encode_query-datagram :
    (id qtype : ℕ) (name : Text) (edns : Option ℕ) (out : List ℕ) (p : List ℕ × ℕ)
    → encode_query id name qtype edns out ≡ ok p
    → (take (p.1) (p.0) ≡ datagram id (name_bytes (labels_of (without_dot name))) qtype edns)
      × All IsLabel (labels_of (without_dot name))
      × (length (name_bytes (labels_of (without_dot name))) ≤ 255)
unfolding encode_query query_head
encode_query-datagram id qtype name edns out p h =
    let head = query_head id in
    let (out', written, h1) =
      room_or-eq-ok (overwrite out 0 head) no_room
        (λ out'. elim (put_name out' header_len name) [
          | err e ↦ err e
          | ok (out'', at) ↦ encode_tail qtype edns out'' at
        ])
        p h in
    let (out'_is, _) = overwrite-Placed [] out head 0 out' refl written in
    let rest = drop 12 out in
    let (q, put, h2) =
      written-eq-ok (put_name out' header_len name) (λ out'' at. encode_tail qtype edns out'' at) p
        h1 in
    let bytes = name_bytes (labels_of (without_dot name)) in
    let (w, labels, short) =
      put_name-Placed head rest name q
        (subst (λ (b : List ℕ). put_name b 12 name ≡ ok q) out'_is put) in
    (
      encode_tail-datagram id qtype bytes (drop (length bytes) rest) edns (q.1) p w.end_is
          (subst (λ (b : List ℕ). encode_tail qtype edns b (q.1) ≡ ok p) w.buf_is h2),
      labels,
      short,
    )
