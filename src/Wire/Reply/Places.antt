-- ===== src/Wire/Reply/Places.antt =====
-- The SOA record that `authority_soa` builds stands inside the bytes that it is built in.
use hopdns.Base.{
  ℕ, ◌+◌, ◌-◌, ◌*◌, ◌%◌, ◌≤◌, List, [], ◌∷◌, ◌++◌, none, some, ◌≡◌, refl, ◌∙◌, arith, ltb, subst,
  length, overwrite, replicate, if◌then◌else◌, Bool, true, false,
}
use hopdns.Errors.{Error, Result, ok, err, bad_name, no_room, >>=-eq-ok}
use hopdns.Text.{Text, codes, without_dot}
use hopdns.Wire.{rtype_soa, class_in, name_max, u16_bytes, u32_bytes}
use hopdns.Wire.Names.{put_name}
use hopdns.Wire.Names.Ends.{EndsIn, room_or-eq-ok, overwrite-length, put_name-EndsIn}
use hopdns.Wire.Reply.{
  put_soa_name, put_words, soa_head, soa_numbers, soa_mailbox, soa_rdata, soa_record, to_u16,
}

cond-eq-ok :
    {B : Type 0} (c : Bool) (e : Error) (x : Result B) (b : B)
    → (if c then x else err e) ≡ ok b
    → (c ≡ true) × (x ≡ ok b)
cond-eq-ok true e x b h = (refl, h)
cond-eq-ok false e x b h = cc

put_soa_name-EndsIn :
    (out : List ℕ) (at : ℕ) (prefix zone : Text) (p : List ℕ × ℕ)
    → put_soa_name out at prefix zone ≡ ok p
    → EndsIn out at p
unfolding put_soa_name
put_soa_name-EndsIn out at prefix zone p h =
    let label = without_dot prefix in
    let (out', placed, later) =
      room_or-eq-ok (overwrite out at (length label % 256 ∷ label)) no_room
        (λ out'.
          if ltb (length label) 256
          then put_name out' (at + 1 + length label) zone
          else err bad_name)
        p h in
    let (same, fits) = overwrite-length out at (length label % 256 ∷ label) out' placed in
    let (small, named) =
      cond-eq-ok (ltb (length label) 256) bad_name (put_name out' (at + 1 + length label) zone) p
        later in
    let ((same', low, high), short) =
      put_name-EndsIn out' (at + 1 + length label) zone p (omega arith) named in
    (same' ∙ same, omega arith, omega arith)

put_words-EndsIn :
    (vs : List ℕ) (out : List ℕ) (at : ℕ) (p : List ℕ × ℕ)
    → at ≤ length out
    → put_words out at vs ≡ ok p
    → EndsIn out at p
unfolding put_words
put_words-EndsIn [] out at p le h =
    let e : (out, at) ≡ p = cc in
    subst (λ (q : List ℕ × ℕ). EndsIn out at q) e (refl, omega arith, le)
put_words-EndsIn (v ∷ vs) out at p le h =
    let (out', placed, later) =
      room_or-eq-ok (overwrite out at (u32_bytes v)) no_room (λ out'. put_words out' (at + 4) vs) p
        h in
    let (same, fits) = overwrite-length out at (u32_bytes v) out' placed in
    let (same', low, high) = put_words-EndsIn vs out' (at + 4) p (omega arith) later in
    (same' ∙ same, omega arith, omega arith)

-- The end stands inside the bytes.
abbrev Inside : List ℕ × ℕ → Type 0
Inside (tmp, at) = at ≤ length tmp

soa_head-Inside : (ttl n : ℕ) (q p : List ℕ × ℕ) → Inside q → soa_head ttl n q ≡ ok p → Inside p
unfolding soa_head
soa_head-Inside ttl n (tmp, at) p inside h =
    let front : ℕ → List ℕ =
      λ rdlen. u16_bytes rtype_soa ++ (u16_bytes class_in ++ (u32_bytes ttl ++ u16_bytes rdlen)) in
    let (rdlen, _, later) =
      >>=-eq-ok (to_u16 (at - (n + 10)))
        (λ rdlen. elim (overwrite tmp n (front rdlen)) [
          | none ↦ err no_room
          | some tmp' ↦ ok (tmp', at)
        ])
        h in
    let (tmp', placed, done) =
      room_or-eq-ok (overwrite tmp n (front rdlen)) no_room (λ tmp'. ok (tmp', at)) p later in
    let (same, fits) = overwrite-length tmp n (front rdlen) tmp' placed in
    let e : (tmp', at) ≡ p = cc in subst Inside e (omega arith)

soa_numbers-Inside :
    (ttl n : ℕ) (q p : List ℕ × ℕ) → Inside q → soa_numbers ttl n q ≡ ok p → Inside p
unfolding soa_numbers
soa_numbers-Inside ttl n (tmp, at) p inside h =
    let words = 1 ∷ ttl ∷ ttl ∷ ttl ∷ ttl ∷ [] in
    let (q', put, later) = >>=-eq-ok (put_words tmp at words) (soa_head ttl n) h in
    let (same, low, high) = put_words-EndsIn words tmp at q' inside put in
    soa_head-Inside ttl n q' p (omega arith) later

soa_mailbox-Inside :
    (zone : Text) (ttl n : ℕ) (q p : List ℕ × ℕ) → soa_mailbox zone ttl n q ≡ ok p → Inside p
unfolding soa_mailbox
soa_mailbox-Inside zone ttl n (tmp, at) p h =
    let (q', put, later) =
      >>=-eq-ok (put_soa_name tmp at (codes "hostmaster.") zone) (soa_numbers ttl n) h in
    let (same, low, high) = put_soa_name-EndsIn tmp at (codes "hostmaster.") zone q' put in
    soa_numbers-Inside ttl n q' p (omega arith) later

pub soa_record-Inside :
    (zone : Text) (ttl : ℕ) (p : List ℕ × ℕ) → soa_record zone ttl ≡ ok p → p.1 ≤ length (p.0)
unfolding soa_record soa_rdata
soa_record-Inside zone ttl p h =
    let ((tmp, n), named, later) =
      >>=-eq-ok (put_name (replicate (3 * (name_max + 1) + 20) 0) 0 zone) (soa_rdata zone ttl) h in
    let (q', put, later') =
      >>=-eq-ok (put_soa_name tmp (n + 10) (codes "ns.") zone) (soa_mailbox zone ttl n) later in
    soa_mailbox-Inside zone ttl n q' p later'
