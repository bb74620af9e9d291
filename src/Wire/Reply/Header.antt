-- ===== src/Wire/Reply/Header.antt =====
-- The beginning of a reply, and its code: `bare`, `start`, `set_rcode`.
use hopdns.Base.{
  ℕ, ◌+◌, ◌^◌, ◌≤◌, ◌<◌, min, List, [], ◌++◌, Option, none, some, ◌≡◌, refl, ap, ◌∙◌, arith, ltb_le,
  lt→ltb, lt_or_le, inl, inr, length, drop, overwrite, length-append, length-drop, replicate,
}
use hopdns.Errors.{Result, ok, err, no_room}
use hopdns.Wire.{Rcode, no_error, be16, u16_bytes}
use hopdns.Wire.Query.{Query}
use hopdns.Wire.Reply.{
  Reply, reserve, flags, set_flags, set_rcode, with_rcode, head_flags, bare, put_question, start,
}
use hopdns.Wire.Reply.Shape.{
  Image, image_bytes, header, Shows, with_flags, overwrite_qd, overwrite_flags, set_count-eq,
}
use hopdns.Wire.Reply.Records.{Answered, length-rest}
use hopdns.Wire.Words.{overwrite-append, be16-append}

-- A header without records.
abbrev pub bare_image : ℕ → ℕ → Image
bare_image id fl = record { id = id; flags = fl; qd = 0; an = 0; ns = 0; ar = 0; body = [] }

abbrev bare_reply : List ℕ → ℕ → ℕ → Rcode → ℕ → Reply
bare_reply buf id fl rc limit = record {
  buf = header id (head_flags fl rc) 0 0 0 0 ++ drop 12 buf;
  len = 12;
  limit = min limit (length buf);
  an = 0;
  ns = 0;
  ar = 0;
  edns = none;
}

bare-eq :
    (buf : List ℕ) (id fl : ℕ) (rc : Rcode) (limit : ℕ)
    → 12 ≤ min limit (length buf)
    → bare buf id fl rc limit ≡ ok (bare_reply buf id fl rc limit)
unfolding bare
bare-eq buf id fl rc limit h =
    rw (ltb_le (min limit (length buf)) 12 h, bare)
      (rw
        (overwrite-append [] buf (u16_bytes id ++ (u16_bytes (head_flags fl rc) ++ replicate 8 0)) 0
          refl (omega arith))
        refl)

pub bare_small :
    (buf : List ℕ) (id fl : ℕ) (rc : Rcode) (limit : ℕ)
    → min limit (length buf) < 12
    → bare buf id fl rc limit ≡ err no_room
unfolding bare
bare_small buf id fl rc limit h = rw (lt→ltb (min limit (length buf)) 12 h, bare)

bare_reply-Shows :
    (buf : List ℕ) (id fl : ℕ) (rc : Rcode) (limit : ℕ)
    → 12 ≤ min limit (length buf)
    → Shows (bare_reply buf id fl rc limit) (bare_image id (head_flags fl rc))
bare_reply-Shows buf id fl rc limit h = record {
  rest = drop 12 buf;
  layout = refl;
  len_is = refl;
  an_is = refl;
  ns_is = refl;
  ar_is = refl;
  within = omega arith;
  limit_le = omega (arith, length-drop 12 buf);
}

-- A reply that began: it shows `m`, and keeps to the limit.
pub record Began (p : Result Reply) (limit : ℕ) (edns : Option ℕ) (m : Image) : Type 0 where
  pub reply : Reply
  pub began : p ≡ ok reply
  pub shows : Shows reply m
  pub limit_is : reply.limit ≡ limit
  pub edns_is : reply.edns ≡ edns

pub bare-Began :
    (buf : List ℕ) (id fl : ℕ) (rc : Rcode) (limit : ℕ)
    → 12 ≤ min limit (length buf)
    → Began
        (bare buf id fl rc limit)
        (min limit (length buf))
        none
        (bare_image id (head_flags fl rc))
bare-Began buf id fl rc limit h = record {
  reply = bare_reply buf id fl rc limit;
  began = bare-eq buf id fl rc limit h;
  shows = bare_reply-Shows buf id fl rc limit h;
  limit_is = refl;
  edns_is = refl;
}

-- The header and the question.
abbrev pub question_image : Query → Image
question_image q = record (bare_image q.id (head_flags q.flags no_error)) {
  qd = 1;
  body = q.question;
}

put_question-Began :
    (q : Query) (r : Reply) (id fl : ℕ)
    → Shows r (bare_image id fl)
    → 12 + length q.question + reserve q.edns ≤ r.limit
    → Began
        (put_question q r)
        r.limit
        q.edns
        (record (bare_image id fl) { qd = 1; body = q.question })
unfolding put_question
put_question-Began q r id fl s fits =
    let rest : List ℕ = drop (length q.question) s.rest in
    let buf' : List ℕ = header id fl 0 0 0 0 ++ (q.question ++ rest) in
    let placed : overwrite r.buf 12 q.question ≡ some buf' =
      ap (λ (b : List ℕ). overwrite b 12 q.question) s.layout
      ∙ overwrite-append (header id fl 0 0 0 0) s.rest q.question 12 refl
          (omega (arith, length-rest s, s.limit_le)) in
    let r1 : Reply = record r { buf = buf'; len = 12 + length q.question } in
    let counted =
      set_count-eq r1 4 1 buf' (header id fl 1 0 0 0 ++ (q.question ++ rest)) refl
        (overwrite_qd id fl 0 0 0 0 1 (q.question ++ rest)) in
    record {
      reply = record r1 { buf = header id fl 1 0 0 0 ++ (q.question ++ rest); edns = q.edns };
      began =
          rw (ltb_le r.limit (12 + length q.question + reserve q.edns) fits, put_question)
            (rw placed (rw counted refl));
      shows = record {
        rest = rest;
        layout = refl;
        len_is = omega arith;
        an_is = s.an_is;
        ns_is = s.ns_is;
        ar_is = s.ar_is;
        within = fits;
        limit_le = omega (
          arith,
          length-rest s,
          s.limit_le,
          length-append q.question rest,
          length-drop (length q.question) s.rest,
        );
      };
      limit_is = refl;
      edns_is = refl;
    }

-- A question that fits begins the answer with its own id and bytes.
pub start-Began :
    (buf : List ℕ) (q : Query) (limit : ℕ)
    → 12 + length q.question + reserve q.edns ≤ min limit (length buf)
    → Began (start buf q limit) (min limit (length buf)) q.edns (question_image q)
unfolding start
start-Began buf q limit fits =
    let b = bare-Began buf q.id q.flags no_error (min limit (length buf)) (omega arith) in
    let same : min (min limit (length buf)) (length buf) ≡ min limit (length buf) = omega arith in
    let limit_of : b.reply.limit ≡ min limit (length buf) = b.limit_is ∙ same in
    let p = put_question-Began q b.reply q.id (head_flags q.flags no_error) b.shows (omega arith) in
    record {
      reply = p.reply;
      began = rw (b.began, start) p.began;
      shows = p.shows;
      limit_is = p.limit_is ∙ limit_of;
      edns_is = p.edns_is;
    }

-- The other case of `start`.
pub start_small :
    (buf : List ℕ) (q : Query) (limit : ℕ)
    → min limit (length buf) < 12 + length q.question + reserve q.edns
    → start buf q limit ≡ err no_room
unfolding start put_question
start_small buf q limit small = elim (lt_or_le (min (min limit (length buf)) (length buf)) 12) [
  | inl few ↦ rw (bare_small buf q.id q.flags no_error (min limit (length buf)) few, start) refl
  | inr enough ↦
      let b = bare-Began buf q.id q.flags no_error (min limit (length buf)) enough in
      let narrow : b.reply.limit < 12 + length q.question + reserve q.edns =
        omega (arith, b.limit_is) in
      rw (b.began, start)
        (rw (lt→ltb b.reply.limit (12 + length q.question + reserve q.edns) narrow, put_question)
          refl)
]

flags-Shows : (r : Reply) (m : Image) → Shows r m → m.flags < 2 ^ 16 → flags r ≡ m.flags
unfolding flags
flags-Shows r m s small =
    let read : be16 r.buf 2 ≡ some m.flags =
      ap (λ (b : List ℕ). be16 b 2) s.layout
      ∙ be16-append (u16_bytes m.id)
          (u16_bytes m.qd
            ++ (u16_bytes m.an ++ (u16_bytes m.ns ++ (u16_bytes m.ar ++ (m.body ++ s.rest)))))
          m.flags 2 refl small in
    rw (read, flags) refl

-- For a reply that shows a message with a flag word below 2^16, `set_rcode` leaves one, under the
-- same limit and EDNS size, that shows the same message but for the flag word, which is
-- `with_rcode` of the old one.
pub set_rcode-Answered :
    (rc : Rcode) (r : Reply) (m : Image)
    → Shows r m
    → m.flags < 2 ^ 16
    → Answered r (set_rcode rc r, ok tt) (with_flags (with_rcode m.flags rc) m)
unfolding set_rcode set_flags
set_rcode-Answered rc r m s small =
    let fl = with_rcode m.flags rc in
    let written =
      set_count-eq r 2 fl (image_bytes m ++ s.rest) (image_bytes (with_flags fl m) ++ s.rest)
        s.layout (overwrite_flags m.id m.flags m.qd m.an m.ns m.ar fl (m.body ++ s.rest)) in
    rw (flags-Shows r m s small, set_rcode)
      (rw (written, set_flags)
        (record {
          succeeded = refl;
          shows = record {
            rest = s.rest;
            layout = refl;
            len_is = s.len_is;
            an_is = s.an_is;
            ns_is = s.ns_is;
            ar_is = s.ar_is;
            within = s.within;
            limit_le = omega (arith, s.limit_le, length-rest s, length-append m.body s.rest);
          };
          limit_kept = refl;
          edns_kept = refl;
        }))
