-- ===== src/Wire/Reply/Kept.antt =====
-- What every method keeps: the id, the question, and the flags but for the code.
use hopdns.Base.{
  ℕ, ◌+◌, ◌^◌, ◌≤◌, ◌<◌, min, List, [], ◌++◌, Option, none, some, ◌≡◌, refl, sym, ap, ◌∙◌, arith,
  subst, length, take, replicate, append_assoc, append-nil, length-take, lt_or_le, inl, inr,
}
use hopdns.Errors.{Error, Result, ok, err, no_room}
use hopdns.Text.{Text}
use hopdns.Wire.{Rcode, no_error, name_max, rtype_cname}
use hopdns.Wire.Bits.{head_flags-lt, with_rcode-head_flags}
use hopdns.Wire.Names.{put_name}
use hopdns.Wire.Names.Ends.{put_name-EndsIn}
use hopdns.Wire.Query.{Query}
use hopdns.Wire.Reply.{
  Reply, reserve, room, head_flags, with_rcode, set_rcode, answer_a, answer_cname, authority_soa,
  put_authority, soa_record, start, finish, opt_reply,
}
use hopdns.Wire.Reply.Shape.{
  Image, image_bytes, header, Shows, with_answer, with_authority, with_flags,
}
use hopdns.Wire.Reply.Records.{
  Answered, put_answer, put_answer-Shows, put_answer_full, answer_a-Answered, answer_a_full,
  answer_cname-put_answer, answer_cname_bad, put_authority-Answered, put_authority_full,
}
use hopdns.Wire.Reply.Header.{start-Began, question_image, set_rcode-Answered}
use hopdns.Wire.Reply.Finish.{finished, sent, finish-Shows}
use hopdns.Wire.Reply.Places.{soa_record-Inside}

-- The reply shows an answer to `q`: its id, its question, the flags of an answer, records behind it.
pub record Kept (q : Query) (limit : ℕ) (rcode : Rcode) (r : Reply) : Type 0 where
  pub message : Image
  pub records : List ℕ
  pub shows : Shows r message
  pub id_is : message.id ≡ q.id
  pub flags_is : message.flags ≡ head_flags q.flags rcode
  pub qd_is : message.qd ≡ 1
  pub ar_is : message.ar ≡ 0
  pub body_is : message.body ≡ q.question ++ records
  pub limit_is : r.limit ≡ limit
  pub edns_is : r.edns ≡ q.edns

-- A record appended to the answers or the authority keeps it.
module _ (q : Query) (limit : ℕ) (rc : Rcode) (r : Reply) (k : Kept q limit rc r) where
  Answered-Kept :
      (p : Reply × Result (Unit {0})) (rec : List ℕ)
      → Answered r p (with_answer rec k.message)
      → Kept q limit rc (p.0)
  Answered-Kept p rec a = record {
    message = with_answer rec k.message;
    records = k.records ++ rec;
    shows = a.shows;
    id_is = k.id_is;
    flags_is = k.flags_is;
    qd_is = k.qd_is;
    ar_is = k.ar_is;
    body_is = ap (λ (b : List ℕ). b ++ rec) k.body_is ∙ append_assoc q.question k.records rec;
    limit_is = a.limit_kept ∙ k.limit_is;
    edns_is = a.edns_kept ∙ k.edns_is;
  }

  unchanged-Kept :
      (p : Reply × Result (Unit {0})) (e : Error) → p ≡ (r, err e) → Kept q limit rc (p.0)
  unchanged-Kept p e h = subst (λ (p : Reply × Result (Unit {0})). Kept q limit rc (p.0)) (sym h) k

  pub answer_a-Kept : (ip ttl : ℕ) → Kept q limit rc ((answer_a ip ttl r).0)
  answer_a-Kept ip ttl = elim (lt_or_le (room r) 16) [
    | inl full ↦
        unchanged-Kept (answer_a ip ttl r) no_room (answer_a_full ip ttl r k.message k.shows full)
    | inr fits ↦
        Answered-Kept (answer_a ip ttl r) _ (answer_a-Answered ip ttl r k.message k.shows fits)
  ]

  pub set_rcode-Kept : (rc' : Rcode) → q.flags < 2 ^ 16 → Kept q limit rc' (set_rcode rc' r)
  set_rcode-Kept rc' small =
      let word : k.message.flags < 2 ^ 16 =
        omega (arith, k.flags_is, head_flags-lt q.flags rc small) in
      let a = set_rcode-Answered rc' r k.message k.shows word in
      record {
        message = with_flags (with_rcode k.message.flags rc') k.message;
        records = k.records;
        shows = a.shows;
        id_is = k.id_is;
        flags_is =
            ap (λ (f : ℕ). with_rcode f rc') k.flags_is
            ∙ with_rcode-head_flags q.flags rc rc' small;
        qd_is = k.qd_is;
        ar_is = k.ar_is;
        body_is = k.body_is;
        limit_is = a.limit_kept ∙ k.limit_is;
        edns_is = a.edns_kept ∙ k.edns_is;
      }

  put_answer-Kept :
      (rtype ttl : ℕ) (bytes : List ℕ)
      → length bytes < 2 ^ 16
      → Kept q limit rc ((put_answer rtype ttl bytes r).0)
  put_answer-Kept rtype ttl bytes small =
      let p = put_answer rtype ttl bytes r in
      elim (lt_or_le (room r) (12 + length bytes)) [
        | inl full ↦
            unchanged-Kept p no_room (put_answer_full rtype ttl bytes r k.message k.shows full)
        | inr fits ↦
            Answered-Kept p _ (put_answer-Shows rtype ttl bytes r k.message k.shows fits small)
      ]

  pub answer_cname-Kept :
      (target : Text) (ttl : ℕ) → Kept q limit rc ((answer_cname target ttl r).0)
  answer_cname-Kept target ttl = go (put_name (replicate (name_max + 1) 0) 0 target) refl
    where
      go :
          (w : Result (List ℕ × ℕ))
          → put_name (replicate (name_max + 1) 0) 0 target ≡ w
          → Kept q limit rc ((answer_cname target ttl r).0)
      go (err e) h =
          unchanged-Kept (answer_cname target ttl r) e (answer_cname_bad target ttl r e h)
      go (ok (tmp, n)) h =
          let ((same, low, high), short) =
            put_name-EndsIn (replicate (name_max + 1) 0) 0 target (tmp, n) (omega arith) h in
          subst (λ (p : Reply × Result (Unit {0})). Kept q limit rc (p.0))
            (sym (answer_cname-put_answer target ttl r tmp n h (omega arith)))
            (put_answer-Kept rtype_cname ttl (take n tmp) (omega (arith, length-take n tmp)))

  put_authority-Kept :
      (tmp : List ℕ) (n : ℕ) → n ≤ length tmp → Kept q limit rc ((put_authority tmp n r).0)
  put_authority-Kept tmp n inside =
      let p = put_authority tmp n r in
      elim (lt_or_le (room r) n) [
        | inl full ↦
            unchanged-Kept p no_room (put_authority_full tmp n inside r k.message k.shows full)
        | inr fits ↦
            let a = put_authority-Answered tmp n inside r k.message k.shows fits in
            record {
              message = with_authority (take n tmp) k.message;
              records = k.records ++ take n tmp;
              shows = a.shows;
              id_is = k.id_is;
              flags_is = k.flags_is;
              qd_is = k.qd_is;
              ar_is = k.ar_is;
              body_is =
                  ap (λ (b : List ℕ). b ++ take n tmp) k.body_is
                  ∙ append_assoc q.question k.records (take n tmp);
              limit_is = a.limit_kept ∙ k.limit_is;
              edns_is = a.edns_kept ∙ k.edns_is;
            }
      ]

  pub authority_soa-Kept : (zone : Text) (ttl : ℕ) → Kept q limit rc ((authority_soa zone ttl r).0)
  unfolding authority_soa
  authority_soa-Kept zone ttl = go (soa_record zone ttl) refl
    where
      go :
          (w : Result (List ℕ × ℕ))
          → soa_record zone ttl ≡ w
          → Kept q limit rc ((authority_soa zone ttl r).0)
      go (err e) h = rw (h, authority_soa) k
      go (ok (tmp, n)) h =
          rw (h, authority_soa) (put_authority-Kept tmp n (soa_record-Inside zone ttl (tmp, n) h))

-- `start` gives it, without records.
pub start-Kept :
    (buf : List ℕ) (q : Query) (limit : ℕ)
    → 12 + length q.question + reserve q.edns ≤ min limit (length buf)
    → (r : Reply) × (start buf q limit ≡ ok r)
      × Kept q (min limit (length buf)) no_error r
      × (r.an ≡ 0)
start-Kept buf q limit fits =
    let b = start-Began buf q limit fits in
    (
      b.reply,
      b.began,
      record {
        message = question_image q;
        records = [];
        shows = b.shows;
        id_is = refl;
        flags_is = refl;
        qd_is = refl;
        ar_is = refl;
        body_is = sym (append-nil q.question);
        limit_is = b.limit_is;
        edns_is = b.edns_is;
      },
      b.shows.an_is,
    )

-- The OPT record that an answer to EDNS ends with.
abbrev pub opt_count : Option ℕ → ℕ
opt_count none = 0
opt_count (some _) = 1

abbrev pub opt_bytes : Option ℕ → List ℕ
opt_bytes none = []
opt_bytes (some _) = opt_reply

-- What is sent is an answer to `q`: its id, the flags of an answer to its flags, its question and no
-- other, records, and an OPT record exactly if it had one; all inside the limit.
pub record IsAnswer (q : Query) (limit : ℕ) (p : List ℕ × ℕ) : Type 0 where
  pub rcode : Rcode
  pub an : ℕ
  pub ns : ℕ
  pub records : List ℕ
  pub bytes_are :
      sent p
      ≡ header q.id (head_flags q.flags rcode) 1 an ns (opt_count q.edns)
        ++ (q.question ++ (records ++ opt_bytes q.edns))
  pub short : p.1 ≤ limit

finished-bytes :
    (q : Query) (limit : ℕ) (rc : Rcode) (r : Reply) (k : Kept q limit rc r)
    → image_bytes (finished q.edns k.message)
      ≡ header q.id (head_flags q.flags rc) 1 k.message.an k.message.ns (opt_count q.edns)
        ++ (q.question ++ (k.records ++ opt_bytes q.edns))
finished-bytes q limit rc r k = go q.edns
  where
    go :
        (e : Option ℕ)
        → image_bytes (finished e k.message)
          ≡ header q.id (head_flags q.flags rc) 1 k.message.an k.message.ns (opt_count e)
            ++ (q.question ++ (k.records ++ opt_bytes e))
    go none = rw (k.id_is, k.flags_is, k.qd_is, k.ar_is, k.body_is, append-nil k.records) refl
    go (some n) =
        rw
          (
            k.id_is,
            k.flags_is,
            k.qd_is,
            k.ar_is,
            k.body_is,
            append_assoc q.question k.records opt_reply,
          )
          refl

-- The code that is sent is the reply's.
pub finish-IsAnswer_code :
    (q : Query) (limit : ℕ) (rc : Rcode) (r : Reply)
    → Kept q limit rc r
    → (a : IsAnswer q limit (finish r)) × (a.rcode ≡ rc)
finish-IsAnswer_code q limit rc r k =
    let (bytes, short) = finish-Shows r k.message k.shows in
    (
      record {
        rcode = rc;
        an = k.message.an;
        ns = k.message.ns;
        records = k.records;
        bytes_are =
            bytes
            ∙ (ap (λ (e : Option ℕ). image_bytes (finished e k.message)) k.edns_is
                ∙ finished-bytes q limit rc r k);
        short = omega (arith, k.limit_is);
      },
      refl,
    )

pub finish-IsAnswer :
    (q : Query) (limit : ℕ) (rc : Rcode) (r : Reply)
    → Kept q limit rc r
    → IsAnswer q limit (finish r)
finish-IsAnswer q limit rc r k = (finish-IsAnswer_code q limit rc r k).0
