-- ===== src/Wire/Reply/Sizes.antt =====
-- src/wire.rs: no method of a reply changes the length of the buffer.
use hopdns.Base.{
  ℕ, ◌+◌, ◌%◌, ◌^◌, Bool, true, false, List, ◌++◌, none, some, ◌≡◌, refl, ◌∙◌, ltb, if◌then◌else◌,
  length, take, overwrite, replicate, min, Option-cases, sym, ap, inl, inr,
}
use hopdns.Errors.{Result, ok, err, no_room, >>=-eq-ok}
use hopdns.Text.{Text}
use hopdns.Wire.{
  Rcode, rtype_a, rtype_cname, name_max, qname_ptr, class_in, no_error, u16_bytes, u32_bytes,
  header_len, opt_len,
}
use hopdns.Wire.Names.{put_name}
use hopdns.Wire.Names.Ends.{overwrite-length, room_or-eq-ok, guard-eq-ok}
use hopdns.Wire.Query.{Query}
use hopdns.Wire.Reply.{
  Reply, reserve, M, bound, ◌>>=◌, ◌>>◌, pure, lift, write, set_count, set_flags, flags, with_rcode,
  set_rcode, room, rr_head, to_u16, count_answer, answer_a, answer_cname, count_authority,
  put_authority, soa_record, authority_soa, head_flags, bare, put_question, start, count_additional,
  opt_reply, finish,
}

abbrev pub SameSize : Reply → Reply → Type 0
SameSize r r' = length r'.buf ≡ length r.buf

-- The method keeps the length of the buffer, whatever its result is.
pub record Keeps {A : Type 0} (m : M A) : Type 0 where
  pub same_size : (r : Reply) → SameSize r ((m r).0)

bound-SameSize :
    {A B : Type 0} (r : Reply) (p : Reply × Result A) (f : A → M B)
    → SameSize r (p.0)
    → ((a : A) → Keeps (f a))
    → SameSize r ((bound f p).0)
bound-SameSize r (r', ok a) f same keeps = (keeps a).same_size r' ∙ same
bound-SameSize r (r', err e) f same keeps = same

>>=-Keeps :
    {A B : Type 0} (m : M A) (f : A → M B) → Keeps m → ((a : A) → Keeps (f a)) → Keeps (m >>= f)
>>=-Keeps m f keeps later = record {
  same_size = λ r. bound-SameSize r (m r) f (keeps.same_size r) later;
}

lift-Keeps : {A : Type 0} (a : Result A) → Keeps (lift a)
lift-Keeps a = record { same_size = λ r. refl }

write-Keeps : (at : ℕ) (bytes : List ℕ) → Keeps (write at bytes)
unfolding write
write-Keeps at bytes = record {
  same_size = λ r. elim (Option-cases (overwrite r.buf at bytes)) [
    | inl e ↦ rw (e, write) refl
    | inr (buf', e) ↦ rw (e, write) ((overwrite-length r.buf at bytes buf' e).0)
  ];
}

set_count-SameSize : (at n : ℕ) (r : Reply) → SameSize r (set_count at n r)
unfolding set_count
set_count-SameSize at n r = elim (Option-cases (overwrite r.buf at (u16_bytes n))) [
  | inl e ↦ rw (e, set_count) refl
  | inr (buf', e) ↦ rw (e, set_count) ((overwrite-length r.buf at (u16_bytes n) buf' e).0)
]

pub set_rcode-SameSize : (rc : Rcode) (r : Reply) → SameSize r (set_rcode rc r)
unfolding set_rcode set_flags
set_rcode-SameSize rc r = set_count-SameSize 2 (with_rcode (flags r) rc) r

if-SameSize :
    {A : Type 0} (b : Bool) (r : Reply) (p p' : Reply × Result A)
    → SameSize r (p.0)
    → SameSize r (p'.0)
    → SameSize r ((if b then p else p').0)
if-SameSize true r p p' same same' = same
if-SameSize false r p p' same same' = same'

rr_head-Keeps : (rtype ttl rdlen : ℕ) → Keeps (rr_head rtype ttl rdlen)
unfolding rr_head
rr_head-Keeps rtype ttl rdlen = record {
  same_size = λ r.
      if-SameSize (ltb (room r) (12 + rdlen)) r (r, err no_room) _ refl
        (if-SameSize (ltb (length r.buf) (r.len + 12)) r (r, err no_room) _ refl
          ((body r.len).same_size r));
}
  where
    body :
        (at : ℕ)
        → Keeps (
            write at (qname_ptr ++ (u16_bytes rtype ++ (u16_bytes class_in ++ u32_bytes ttl)))
            >> (lift (to_u16 rdlen) >>= λ n. write (at + 10) (u16_bytes n) >> pure (at + 12)))
    body at = >>=-Keeps _ _ (write-Keeps at _) (λ _.
        >>=-Keeps _ _ (lift-Keeps (to_u16 rdlen)) (λ n.
          >>=-Keeps _ _ (write-Keeps (at + 10) (u16_bytes n)) (λ _. lift-Keeps (ok (at + 12)))))

count_answer-Keeps : (end : ℕ) → Keeps (λ r. (count_answer end r, ok tt))
unfolding count_answer
count_answer-Keeps end = record {
  same_size = λ r.
      let an' = (r.an + 1) % 2 ^ 16 in set_count-SameSize 6 an' (record r { len = end; an = an' });
}

pub answer_a-Keeps : (ip ttl : ℕ) → Keeps (answer_a ip ttl)
unfolding answer_a
answer_a-Keeps ip ttl =
    >>=-Keeps _ _ (rr_head-Keeps rtype_a ttl 4)
      (λ at. >>=-Keeps _ _ (write-Keeps at (u32_bytes ip)) (λ _. count_answer-Keeps (at + 4)))

pub answer_cname-Keeps : (target : Text) (ttl : ℕ) → Keeps (answer_cname target ttl)
unfolding answer_cname
answer_cname-Keeps target ttl =
    >>=-Keeps _ _ (lift-Keeps (put_name (replicate (name_max + 1) 0) 0 target)) (λ (p : List ℕ × ℕ).
      >>=-Keeps _ _ (rr_head-Keeps rtype_cname ttl (p.1)) (λ at.
        >>=-Keeps _ _ (write-Keeps at (take (p.1) (p.0))) (λ _. count_answer-Keeps (at + p.1))))

count_authority-Keeps : (n : ℕ) → Keeps (λ r. (count_authority n r, ok tt))
unfolding count_authority
count_authority-Keeps n = record {
  same_size = λ r.
      let ns' = (r.ns + 1) % 2 ^ 16 in
      set_count-SameSize 8 ns' (record r { len = r.len + n; ns = ns' });
}

put_authority-Keeps : (tmp : List ℕ) (n : ℕ) → Keeps (put_authority tmp n)
unfolding put_authority
put_authority-Keeps tmp n = record {
  same_size =
      λ r. if-SameSize (ltb (room r) n) r (r, err no_room) _ refl ((body r.len).same_size r);
}
  where
    body : (at : ℕ) → Keeps (write at (take n tmp) >> λ r'. (count_authority n r', ok tt))
    body at = >>=-Keeps _ _ (write-Keeps at (take n tmp)) (λ _. count_authority-Keeps n)

pub authority_soa-Keeps : (zone : Text) (ttl : ℕ) → Keeps (authority_soa zone ttl)
unfolding authority_soa
authority_soa-Keeps zone ttl =
    >>=-Keeps _ _ (lift-Keeps (soa_record zone ttl))
      (λ (p : List ℕ × ℕ). put_authority-Keeps (p.0) (p.1))

pub bare-length :
    (buf : List ℕ) (id fl : ℕ) (rc : Rcode) (limit : ℕ) (r : Reply)
    → bare buf id fl rc limit ≡ ok r
    → length r.buf ≡ length buf
unfolding bare
bare-length buf id fl rc limit r h =
    let front : List ℕ = u16_bytes id ++ (u16_bytes (head_flags fl rc) ++ replicate 8 0) in
    let begun : List ℕ → Reply = λ buf'. record {
      buf = buf';
      len = header_len;
      limit = min limit (length buf);
      an = 0;
      ns = 0;
      ar = 0;
      edns = none;
    } in
    let (_, placed) =
      guard-eq-ok (ltb (min limit (length buf)) header_len) no_room
        (elim (overwrite buf 0 front) [ none ↦ err no_room | some buf' ↦ ok (begun buf') ]) r h in
    let (buf', written, same) =
      room_or-eq-ok (overwrite buf 0 front) no_room (λ buf'. ok (begun buf')) r placed in
    let e : begun buf' ≡ r = cc in
    ap (λ (x : Reply). length x.buf) (sym e) ∙ (overwrite-length buf 0 front buf' written).0

pub start-length :
    (buf : List ℕ) (q : Query) (limit : ℕ) (r : Reply)
    → start buf q limit ≡ ok r
    → length r.buf ≡ length buf
unfolding start put_question
start-length buf q limit r h =
    let (b, begun, placed) =
      >>=-eq-ok (bare buf q.id q.flags no_error (min limit (length buf))) (put_question q) h in
    let end = header_len + length q.question in
    let asked : List ℕ → Reply =
      λ buf'. record (set_count 4 1 (record b { buf = buf'; len = end })) { edns = q.edns } in
    let (_, roomy) =
      guard-eq-ok (ltb b.limit (end + reserve q.edns)) no_room
        (elim (overwrite b.buf header_len q.question) [
          | none ↦ err no_room
          | some buf' ↦ ok (asked buf')
        ])
        r placed in
    let (buf', written, same) =
      room_or-eq-ok (overwrite b.buf header_len q.question) no_room (λ buf'. ok (asked buf')) r
        roomy in
    let e : asked buf' ≡ r = cc in
    ap (λ (x : Reply). length x.buf) (sym e)
    ∙ (set_count-SameSize 4 1 (record b { buf = buf'; len = end })
        ∙ ((overwrite-length b.buf header_len q.question buf' written).0
            ∙ bare-length buf q.id q.flags no_error (min limit (length buf)) b begun))

pub finish-length : (r : Reply) → length ((finish r).0) ≡ length r.buf
unfolding finish count_additional
finish-length r = elim (Option-cases r.edns) [
  | inl e ↦ rw (e, finish) refl
  | inr (size, e) ↦ elim (Option-cases (overwrite r.buf r.len opt_reply)) [
    | inl full ↦ rw (e, finish) (rw full refl)
    | inr (buf', written) ↦
        rw (e, finish)
          (rw written (
            set_count-SameSize 10 ((r.ar + 1) % 2 ^ 16)
              (record r { buf = buf'; len = r.len + opt_len; ar = (r.ar + 1) % 2 ^ 16 })
            ∙ (overwrite-length r.buf r.len opt_reply buf' written).0))
  ]
]
