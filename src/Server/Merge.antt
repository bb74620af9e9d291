-- ===== src/Server/Merge.antt =====
-- src/server.rs: the addresses that an answer holds, for a cluster's job and for a job of any cluster.
use hopdns.Base.{
  ℕ, zero, suc, ◌+◌, ◌-◌, ◌/◌, ◌≤◌, min, List, [], ◌∷◌, ◌++◌, ◌≡◌, refl, ap, ◌∙◌, arith, subst,
  length, take, flatten, length-append, ltb_le, lt→ltb, lt_or_le, Bool-cases, inl, inr,
}
use hopdns.Cache
use hopdns.Cache.{Cache, Ip, get_merged}
use hopdns.Cache.Fresh.{fresh, get_merged-fresh}
use hopdns.Errors.{ok}
use hopdns.Text.{Text}
use hopdns.Wire.Reply.{Reply, reserve, room, answer_a}
use hopdns.Wire.Reply.Shape.{Image, Shows, with_answer}
use hopdns.Wire.Reply.Records.{a_record, answer_a-Answered, answer_a_full}
use hopdns.Server.{ttl, write_cluster, write_unseen, write_merged}

-- A message with the addresses as answers, in their order.
unfoldable pub with_addresses : List Ip → Image → Image
with_addresses [] m = m
with_addresses (ip ∷ ips) m = with_addresses ips (with_answer (a_record ip ttl) m)

-- A reply after some writes: it shows `m`, under the same limit.
pub record Wrote (r r' : Reply) (m : Image) : Type 0 where
  pub shows : Shows r' m
  pub limit_kept : r'.limit ≡ r.limit
  pub edns_kept : r'.edns ≡ r.edns

unwritten-Wrote : (r : Reply) (m m' : Image) → Shows r m → m ≡ m' → Wrote r r m'
unwritten-Wrote r m m' s e =
    subst (Wrote r r) e (record { shows = s; limit_kept = refl; edns_kept = refl })

then-Wrote : {r r1 r2 : Reply} {m m' : Image} → Wrote r r1 m → Wrote r1 r2 m' → Wrote r r2 m'
then-Wrote w w' = record {
  shows = w'.shows;
  limit_kept = w'.limit_kept ∙ w.limit_kept;
  edns_kept = w'.edns_kept ∙ w.edns_kept;
}

take_none : {A : Type 0} (n : ℕ) (xs : List A) → n ≡ 0 → take n xs ≡ []
take_none n xs e = rw e refl

take_nil : {A : Type 0} (n : ℕ) → take {A = A} n [] ≡ []
take_nil {A} zero = refl
take_nil {A} (suc n) = refl

-- An address that fits, and the room behind it.
module _ (ip : Ip) (r : Reply) (m : Image) (s : Shows r m) (fits : 16 ≤ room r) where
  answer_a-succeeded : (answer_a ip ttl r).1 ≡ ok tt
  answer_a-succeeded = (answer_a-Answered ip ttl r m s fits).succeeded

  answer_a-Wrote : Wrote r ((answer_a ip ttl r).0) (with_answer (a_record ip ttl) m)
  answer_a-Wrote =
      let a = answer_a-Answered ip ttl r m s fits in
      record { shows = a.shows; limit_kept = a.limit_kept; edns_kept = a.edns_kept }

  answer_a-room : room ((answer_a ip ttl r).0) + 16 ≡ room r
  unfolding room
  answer_a-room =
      let a = answer_a-Answered ip ttl r m s fits in
      let kept : reserve ((answer_a ip ttl r).0).edns ≡ reserve r.edns = ap reserve a.edns_kept in
      omega (
        arith,
        a.limit_kept,
        kept,
        a.shows.len_is,
        s.len_is,
        s.within,
        length-append m.body (a_record ip ttl),
      )

-- For a reply that shows the message `m`, `write_cluster` leaves one, under the same limit and
-- EDNS size, that shows `m` with A records for the first of the addresses, in order: as many as
-- fit, 16 bytes each.
pub write_cluster-Wrote :
    (ips : List Ip) (r : Reply) (m : Image)
    → Shows r m
    → Wrote r (write_cluster ips r) (with_addresses (take (room r / 16) ips) m)
unfolding write_cluster with_addresses
write_cluster-Wrote [] r m s = rw (take_nil (room r / 16)) (unwritten-Wrote r m m s refl)
write_cluster-Wrote (ip ∷ ips) r m s = elim (lt_or_le (room r) 16) [
  | inl full ↦
      let none_fit : room r / 16 ≡ 0 = omega arith in
      rw (answer_a_full ip ttl r m s full, write_cluster)
        (rw (none_fit, answer_a_full ip ttl r m s full) (unwritten-Wrote r m m s refl))
  | inr fits ↦
      let r' : Reply = (answer_a ip ttl r).0 in
      let one : room r / 16 ≡ suc (room r' / 16) = omega (arith, answer_a-room ip r m s fits) in
      let w = answer_a-Wrote ip r m s fits in
      rw (answer_a-succeeded ip r m s fits, write_cluster)
        (rw one
          (then-Wrote w (write_cluster-Wrote ips r' (with_answer (a_record ip ttl) m) w.shows)))
]

pub write_unseen-Wrote :
    (ips seen : List Ip) (r : Reply) (m : Image)
    → Shows r m
    → Wrote r
        (write_unseen ips seen r)
        (with_addresses (take (min (room r / 16) (75 - length seen)) (fresh seen ips)) m)
unfolding write_unseen with_addresses fresh
write_unseen-Wrote [] seen r m s =
    rw (take_nil (min (room r / 16) (75 - length seen))) (unwritten-Wrote r m m s refl)
write_unseen-Wrote (ip ∷ ips) seen r m s = elim (Bool-cases (Cache.contains seen ip)) [
  | inl old ↦ rw (old, write_unseen, fresh) (write_unseen-Wrote ips seen r m s)
  | inr new ↦
      rw (new, write_unseen, fresh)
        (elim (lt_or_le (length seen) 75) [
          | inr most ↦
              let none_left : min (room r / 16) (75 - length seen) ≡ 0 = omega arith in
              rw (ltb_le (length seen) 75 most) (rw none_left (unwritten-Wrote r m m s refl))
          | inl few ↦ rw (lt→ltb (length seen) 75 few) (elim (lt_or_le (room r) 16) [
            | inl full ↦
                let none_fit : min (room r / 16) (75 - length seen) ≡ 0 = omega arith in
                rw (answer_a_full ip ttl r m s full)
                  (rw (none_fit, answer_a_full ip ttl r m s full) (unwritten-Wrote r m m s refl))
            | inr fits ↦
                let r' : Reply = (answer_a ip ttl r).0 in
                let one : min (room r / 16) (75 - length seen)
                    ≡ suc (min (room r' / 16) (75 - length (seen ++ ip ∷ []))) =
                  omega (arith, answer_a-room ip r m s fits, length-append seen (ip ∷ [])) in
                let w = answer_a-Wrote ip r m s fits in
                rw (answer_a-succeeded ip r m s fits) (
                  rw one (
                    then-Wrote w (
                      write_unseen-Wrote ips (seen ++ ip ∷ []) r' (with_answer (a_record ip ttl) m)
                        w.shows)))
          ])
        ])
]

-- For a reply that shows the message `m`, `write_merged` leaves one, under the same limit and EDNS
-- size, that shows `m` with A records for the first addresses of `get_merged`, in order: as many
-- as fit, 16 bytes each, and at most 75.
pub write_merged-Wrote :
    (c : Cache) (job : Text) (r : Reply) (m : Image)
    → Shows r m
    → Wrote r
        (write_merged c job r)
        (with_addresses (take (min (room r / 16) 75) (get_merged c job)) m)
unfolding write_merged
write_merged-Wrote c job r m s =
    rw (get_merged-fresh c job) (write_unseen-Wrote (flatten (Cache.merged c job)) [] r m s)
