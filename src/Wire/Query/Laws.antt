-- ===== src/Wire/Query/Laws.antt =====
-- `parse_query`: what a query that was read holds, and which datagrams it drops.
use Prim.Native.Nat.{bit_and}
use hopdns.Base.{
  ℕ, zero, suc, ◌+◌, ◌-◌, ◌/◌, ◌^◌, ◌≤◌, Bool, true, false, not, ◌||◌, ◌&&◌, List, [], ◌∷◌, Option,
  none, some, ◌≡◌, ◌≢◌, refl, sym, ap, ◌∙◌, arith, subst, leb, leb→le, ltb, ◌==◌, if◌then◌else◌,
  length, take, drop, slice, length-take,
}
use hopdns.Wire.{form_err, header_len, name_max, label_max, qr_bit, be16}
use hopdns.Wire.Names.{skip_plain_walk, skip_plain_name}
use hopdns.Wire.Names.Ends.{cond-eq-some}
use hopdns.Wire.Query.{
  Query, Bad, reply, Parsed, query, bad, or_bad, parse_question, parse_counts, parse_query,
  find_opt,
}

-- A name that was skipped has at most 255 bytes.
skip_plain_walk-bounds :
    (start : ℕ) (bs : List ℕ) (pending at e : ℕ)
    → skip_plain_walk start bs pending at ≡ some e
    → e - start ≤ 255
unfolding skip_plain_walk
skip_plain_walk-bounds start [] pending at e h = cc
skip_plain_walk-bounds start (b ∷ bs) (suc pending) at e h =
    skip_plain_walk-bounds start bs pending (at + 1) e h
skip_plain_walk-bounds start (b ∷ bs) zero at e h =
    go (b == 0) (ltb label_max b) h (skip_plain_walk-bounds start bs b (at + 1) e)
  where
    go :
        (z l : Bool)
        → (elim z [
          | true ↦ if leb (at + 1 - start) name_max then some (at + 1) else none
          | false ↦ elim l [ true ↦ none | false ↦ skip_plain_walk start bs b (at + 1) ]
        ])
          ≡ some e
        → (skip_plain_walk start bs b (at + 1) ≡ some e → e - start ≤ 255)
        → e - start ≤ 255
    go true l h later =
        let (short, same) = cond-eq-some (leb (at + 1 - start) name_max) (at + 1) e h in
        omega (arith, leb→le (at + 1 - start) name_max short)
    go false true h later = cc
    go false false h later = later h

-- What a chain of early returns gave, a step at a time.
or_bad-elim :
    {A P : Type 0} (o : Option A) (b : Bad) (f : A → Parsed) (q : Query)
    → or_bad o b f ≡ query q
    → ((a : A) → o ≡ some a → f a ≡ query q → P)
    → P
or_bad-elim none b f q h k = cc
or_bad-elim (some a) b f q h k = k a refl h

if-eq-query :
    (c : Bool) (b : Bad) (p : Parsed) (q : Query)
    → (if c then bad b else p) ≡ query q
    → (c ≡ false) × (p ≡ query q)
if-eq-query true b p q h = cc
if-eq-query false b p q h = (refl, h)

slice-length : (xs : List ℕ) (a b : ℕ) (ys : List ℕ) → slice xs a b ≡ some ys → length ys ≤ b - a
slice-length xs a b ys h =
    let (inside, same) =
      cond-eq-some (leb a b && leb b (length xs)) (take (b - a) (drop a xs)) ys h in
    subst (λ (zs : List ℕ). length zs ≤ b - a) same (omega (arith, length-take (b - a) (drop a xs)))

-- The bytes of a question: a name, a type and a class.
parse_question-bounds :
    (msg : List ℕ) (id flags rrs : ℕ) (q : Query)
    → parse_question msg id flags rrs ≡ query q
    → (length q.question ≤ 259) × (q.id ≡ id) × (q.flags ≡ flags)
unfolding parse_question skip_plain_name
parse_question-bounds msg id flags rrs q h =
    or_bad-elim (skip_plain_name msg header_len) (reply id flags form_err) _ q h
      λ name_end named h1.
        or_bad-elim (be16 msg name_end) (reply id flags form_err) _ q h1 λ qtype _ h2.
          or_bad-elim (be16 msg (name_end + 2)) (reply id flags form_err) _ q h2 λ qclass _ h3.
            or_bad-elim (slice msg header_len (name_end + 4)) (reply id flags form_err) _ q h3
              λ question asked h4.
                or_bad-elim (slice msg header_len name_end) (reply id flags form_err) _ q h4
                  λ qname _ h5.
                    let q' : Query = record {
                      id = id;
                      flags = flags;
                      question = question;
                      qname = qname;
                      qtype = qtype;
                      qclass = qclass;
                      edns = find_opt rrs msg (name_end + 4);
                    } in
                    let same : q' ≡ q = cc in
                    subst
                      (λ (x : Query). (length x.question ≤ 259) × (x.id ≡ id) × (x.flags ≡ flags))
                      same
                      (
                        omega (
                          arith,
                          slice-length msg header_len (name_end + 4) question asked,
                          skip_plain_walk-bounds header_len (drop header_len msg) 0 header_len
                              name_end named,
                        ),
                        refl,
                        refl,
                      )

parse_counts-bounds :
    (msg : List ℕ) (id flags : ℕ) (q : Query)
    → parse_counts msg id flags ≡ query q
    → (length q.question ≤ 259) × (q.id ≡ id) × (q.flags ≡ flags)
unfolding parse_counts
parse_counts-bounds msg id flags q h =
    let (_, counts) = if-eq-query (not (bit_and (flags / 2 ^ 11) 0xF == 0)) _ _ q h in
    or_bad-elim (be16 msg 4) (reply id flags form_err) _ q counts λ qd _ h1.
      or_bad-elim (be16 msg 6) (reply id flags form_err) _ q h1 λ an _ h2.
        or_bad-elim (be16 msg 8) (reply id flags form_err) _ q h2 λ ns _ h3.
          or_bad-elim (be16 msg 10) (reply id flags form_err) _ q h3 λ ar _ h4.
            let (_, asked) = if-eq-query (not (qd == 1)) _ _ q h4 in
            parse_question-bounds msg id flags (an + ns + ar) q asked

-- If `parse_query` reads a query, its question has at most 259 bytes, its id and flags are the
-- first two words of the datagram, and the QR bit is not set.
pub parse_query-bounds :
    (msg : List ℕ) (q : Query)
    → parse_query msg ≡ query q
    → (length q.question ≤ 259)
      × (be16 msg 0 ≡ some q.id)
      × (be16 msg 2 ≡ some q.flags)
      × (bit_and q.flags qr_bit ≡ 0)
unfolding parse_query
parse_query-bounds msg q h = or_bad-elim (be16 msg 0) Bad.drop _ q h λ id id_read h1.
    or_bad-elim (be16 msg 2) Bad.drop _ q h1 λ flags flags_read h2.
      let (long, counts) =
        if-eq-query (ltb (length msg) header_len || not (bit_and flags qr_bit == 0)) _ _ q h2 in
      let (size, same_id, same_flags) = parse_counts-bounds msg id flags q counts in
      (
        size,
        id_read ∙ ap some (sym same_id),
        flags_read ∙ ap some (sym same_flags),
        ground (arith, same_flags),
      )

-- A response is dropped.
pub parse_query_response :
    (msg : List ℕ) (flags : ℕ)
    → be16 msg 2 ≡ some flags
    → bit_and flags qr_bit ≢ 0
    → parse_query msg ≡ bad Bad.drop
unfolding parse_query
parse_query_response msg flags read answer = go (be16 msg 0) refl
  where
    go : (o : Option ℕ) → be16 msg 0 ≡ o → parse_query msg ≡ bad Bad.drop
    go none h = rw (h, parse_query) refl
    go (some id) h =
        let set : (ltb (length msg) header_len || not (bit_and flags qr_bit == 0)) ≡ true =
          ground arith in
        rw (h, parse_query) (rw read (rw set refl))
