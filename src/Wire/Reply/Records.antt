-- ===== src/Wire/Reply/Records.antt =====
-- `answer_a` and `answer_cname`: the record that they append, and what they leave when it does not fit.
use hopdns.Base.{
  ℕ, ◌+◌, ◌^◌, ◌≤◌, ◌<◌, List, ◌++◌, ◌≡◌, refl, ap, ◌∙◌, arith, ltb_le, lt→ltb, length, take, drop,
  length-append, append_assoc, length-drop, drop-drop, length-take, replicate,
}
use hopdns.Errors.{Error, Result, ok, err, no_room}
use hopdns.Text.{Text}
use hopdns.Wire.Names.{put_name}
use hopdns.Wire.{name_max, rtype_a, rtype_cname, u32_bytes}
use hopdns.Wire.Reply.{
  M, Reply, ◌>>=◌, ◌>>◌, room, write, rr_head, count_answer, answer_a, answer_cname,
  count_authority, put_authority,
}
use hopdns.Wire.Reply.Shape.{
  Image, image_bytes, Shows, plus_one, with_answer, with_authority, rr_bytes, overwrite_ns,
  write-append, rr_head_fits, overwrite_an, set_count-eq,
}

-- RFC 1035 section 3.4.1, for the name of the question.
abbrev pub a_record : ℕ → ℕ → List ℕ
a_record ip ttl = rr_bytes rtype_a ttl 4 ++ u32_bytes ip

-- What stands behind a message grows by a record.
abbrev pub Grown : Reply → Image → List ℕ → List ℕ → Type 0
Grown r m rec rest = r.buf ≡ (image_bytes m ++ rec) ++ rest

pub image-append :
    (m : Image) (rec : List ℕ)
    → image_bytes m ++ rec ≡ image_bytes (record m { body = m.body ++ rec })
image-append m rec = refl

pub length-rest :
    {r : Reply} {m : Image} (s : Shows r m) → length r.buf ≡ length (image_bytes m) + length s.rest
length-rest {m = m} s = ap length s.layout ∙ length-append (image_bytes m) s.rest

-- The end of a method that appends a record to the answers.
count_answer-eq :
    (r : Reply) (m : Image) (end : ℕ) (rec rest : List ℕ)
    → r.an ≡ m.an
    → count_answer end (record r { buf = (image_bytes m ++ rec) ++ rest })
      ≡ record r { buf = image_bytes (with_answer rec m) ++ rest; len = end; an = plus_one m.an }
unfolding count_answer
count_answer-eq r m end rec rest e = rw e (
    set_count-eq (record r { buf = (image_bytes m ++ rec) ++ rest; len = end; an = plus_one m.an })
      6 (plus_one m.an) ((image_bytes m ++ rec) ++ rest) (image_bytes (with_answer rec m) ++ rest)
      refl
      (overwrite_an m.id m.flags m.qd m.an m.ns m.ar (plus_one m.an) ((m.body ++ rec) ++ rest)))

-- A method succeeded, and the reply that it leaves shows `m`.
pub record Answered (r : Reply) (p : Reply × Result (Unit {0})) (m : Image) : Type 0 where
  pub succeeded : p.1 ≡ ok tt
  pub shows : Shows (p.0) m
  pub limit_kept : (p.0).limit ≡ r.limit
  pub edns_kept : (p.0).edns ≡ r.edns

count_answer-Answered :
    (r : Reply) (m : Image) (s : Shows r m) (end : ℕ) (rec rest : List ℕ)
    → end ≡ r.len + length rec
    → length rec ≤ room r
    → length ((image_bytes m ++ rec) ++ rest) ≡ length r.buf
    → Answered r
        (count_answer end (record r { buf = (image_bytes m ++ rec) ++ rest }), ok tt)
        (with_answer rec m)
unfolding room
count_answer-Answered r m s end rec rest e fits same =
    rw (count_answer-eq r m end rec rest s.an_is) (record {
      succeeded = refl;
      shows = record {
        rest = rest;
        layout = refl;
        len_is = omega (arith, s.len_is, length-append m.body rec);
        an_is = refl;
        ns_is = s.ns_is;
        ar_is = s.ar_is;
        within = omega (arith, s.within);
        limit_le = omega (arith, s.limit_le, same, length-append (m.body ++ rec) rest);
      };
      limit_kept = refl;
      edns_kept = refl;
    })

pub room_rest : {r : Reply} {m : Image} (s : Shows r m) {n : ℕ} → n ≤ room r → n ≤ length s.rest
unfolding room
room_rest s h = omega (arith, length-rest s, s.within, s.limit_le, s.len_is)

-- A record of the question's name, with bytes behind its head: what the two answers share.
abbrev pub answer_record : ℕ → ℕ → List ℕ → List ℕ
answer_record rtype ttl bytes = rr_bytes rtype ttl (length bytes) ++ bytes

pub put_answer : ℕ → ℕ → List ℕ → M (Unit {0})
put_answer rtype ttl bytes = do
  at ← rr_head rtype ttl (length bytes)
  write at bytes
  λ r. (count_answer (at + length bytes) r, ok tt)

module _ (rtype ttl : ℕ) (bytes : List ℕ) (r : Reply) (m : Image) (s : Shows r m) where
  put_answer-eq :
      12 + length bytes ≤ room r
      → length bytes < 2 ^ 16
      → put_answer rtype ttl bytes r ≡ (
        count_answer (r.len + (12 + length bytes)) (record r {
          buf = (image_bytes m ++ answer_record rtype ttl bytes) ++ drop (12 + length bytes) s.rest;
        }),
        ok tt,
      )
  unfolding put_answer
  put_answer-eq fits small =
      let head_bytes : List ℕ = rr_bytes rtype ttl (length bytes) in
      let long : 12 + length bytes ≤ length s.rest = room_rest s fits in
      let head =
        rr_head_fits r (image_bytes m) s.rest rtype ttl (length bytes) s.layout s.len_is fits
          (omega arith) small in
      let r1 : Reply = record r { buf = (image_bytes m ++ head_bytes) ++ drop 12 s.rest } in
      let tail =
        write-append r1 (image_bytes m ++ head_bytes) (drop 12 s.rest) bytes (r.len + 12) refl
          (omega (arith, s.len_is, length-append m.body head_bytes))
          (omega (arith, length-drop 12 s.rest)) in
      let end : r.len + 12 + length bytes ≡ r.len + (12 + length bytes) = omega arith in
      rw (head, put_answer)
        (rw tail
          (rw (end, drop-drop 12 (length bytes) s.rest, append_assoc m.body head_bytes bytes) refl))

  pub put_answer-Shows :
      12 + length bytes ≤ room r
      → length bytes < 2 ^ 16
      → Answered r (put_answer rtype ttl bytes r) (with_answer (answer_record rtype ttl bytes) m)
  put_answer-Shows fits small =
      let rec : List ℕ = answer_record rtype ttl bytes in
      let rest : List ℕ = drop (12 + length bytes) s.rest in
      rw (put_answer-eq fits small) (
        count_answer-Answered r m s (r.len + (12 + length bytes)) rec rest (omega arith)
          (omega arith)
          (omega (
            arith,
            length-rest s,
            length-drop (12 + length bytes) s.rest,
            room_rest s fits,
            length-append (m.body ++ rec) rest,
            length-append m.body rec,
          )))

  pub put_answer_full : room r < 12 + length bytes → put_answer rtype ttl bytes r ≡ (r, err no_room)
  unfolding put_answer rr_head
  put_answer_full full = rw (lt→ltb (room r) (12 + length bytes) full, rr_head) refl

module _ (ip ttl : ℕ) (r : Reply) (m : Image) (s : Shows r m) where
  -- For a reply that shows the message `m` and has room for 16 bytes, `answer_a` succeeds and
  -- leaves one, under the same limit and EDNS size, that shows `m` with one A record more and the
  -- count of the answers raised by one.
  pub answer_a-Answered :
      16 ≤ room r → Answered r (answer_a ip ttl r) (with_answer (a_record ip ttl) m)
  unfolding answer_a put_answer
  answer_a-Answered fits = put_answer-Shows rtype_a ttl (u32_bytes ip) r m s fits (omega arith)

  -- One that does not fit leaves the reply as it was.
  pub answer_a_full : room r < 16 → answer_a ip ttl r ≡ (r, err no_room)
  unfolding answer_a put_answer
  answer_a_full full = put_answer_full rtype_a ttl (u32_bytes ip) r m s full

-- `answer_cname` is the record of the name that `put_name` wrote.
pub answer_cname-put_answer :
    (target : Text) (ttl : ℕ) (r : Reply) (tmp : List ℕ) (n : ℕ)
    → put_name (replicate (name_max + 1) 0) 0 target ≡ ok (tmp, n)
    → n ≤ length tmp
    → answer_cname target ttl r ≡ put_answer rtype_cname ttl (take n tmp) r
unfolding answer_cname put_answer
answer_cname-put_answer target ttl r tmp n e inside =
    let width : length (take n tmp) ≡ n = omega (arith, length-take n tmp) in
    rw (e, answer_cname) (rw (width, put_answer) refl)

pub answer_cname_bad :
    (target : Text) (ttl : ℕ) (r : Reply) (x : Error)
    → put_name (replicate (name_max + 1) 0) 0 target ≡ err x
    → answer_cname target ttl r ≡ (r, err x)
unfolding answer_cname
answer_cname_bad target ttl r x e = rw (e, answer_cname) refl

count_authority-eq :
    (r : Reply) (m : Image) (n : ℕ) (rec rest : List ℕ)
    → r.ns ≡ m.ns
    → count_authority n (record r { buf = (image_bytes m ++ rec) ++ rest }) ≡ record r {
      buf = image_bytes (with_authority rec m) ++ rest;
      len = r.len + n;
      ns = plus_one m.ns;
    }
unfolding count_authority
count_authority-eq r m n rec rest e = rw e (
    set_count-eq
      (record r { buf = (image_bytes m ++ rec) ++ rest; len = r.len + n; ns = plus_one m.ns }) 8
      (plus_one m.ns) ((image_bytes m ++ rec) ++ rest) (image_bytes (with_authority rec m) ++ rest)
      refl
      (overwrite_ns m.id m.flags m.qd m.an m.ns m.ar (plus_one m.ns) ((m.body ++ rec) ++ rest)))

module _ (tmp : List ℕ) (n : ℕ) (inside : n ≤ length tmp) (r : Reply) (m : Image)
    (s : Shows r m) where
  put_authority-eq :
      n ≤ room r
      → put_authority tmp n r ≡ (
        record r {
          buf = image_bytes (with_authority (take n tmp) m) ++ drop n s.rest;
          len = r.len + n;
          ns = plus_one m.ns;
        },
        ok tt,
      )
  unfolding put_authority
  put_authority-eq fits =
      let width : length (take n tmp) ≡ n = omega (arith, length-take n tmp) in
      let written =
        write-append r (image_bytes m) s.rest (take n tmp) r.len s.layout s.len_is
          (omega (arith, room_rest s fits)) in
      let counted = count_authority-eq r m n (take n tmp) (drop n s.rest) s.ns_is in
      rw (ltb_le (room r) n fits, put_authority)
        (rw (written, ◌>>◌, ◌>>=◌) (rw (width) (rw counted refl)))

  pub put_authority-Answered :
      n ≤ room r → Answered r (put_authority tmp n r) (with_authority (take n tmp) m)
  unfolding room
  put_authority-Answered fits =
      let width : length (take n tmp) ≡ n = omega (arith, length-take n tmp) in
      rw (put_authority-eq fits) (record {
        succeeded = refl;
        shows = record {
          rest = drop n s.rest;
          layout = refl;
          len_is = omega (arith, s.len_is, length-append m.body (take n tmp));
          an_is = s.an_is;
          ns_is = refl;
          ar_is = s.ar_is;
          within = omega (arith, s.within);
          limit_le = omega (
            arith,
            s.limit_le,
            length-rest s,
            length-drop n s.rest,
            room_rest s fits,
            length-append (m.body ++ take n tmp) (drop n s.rest),
            length-append m.body (take n tmp),
          );
        };
        limit_kept = refl;
        edns_kept = refl;
      })

  pub put_authority_full : room r < n → put_authority tmp n r ≡ (r, err no_room)
  unfolding put_authority
  put_authority_full full = rw (lt→ltb (room r) n full, put_authority) refl
