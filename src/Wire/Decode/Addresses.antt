-- ===== src/Wire/Decode/Addresses.antt =====
-- src/wire.rs: `decode` on an answer that holds addresses.
use hopdns.Base.{
  ℕ, ◌+◌, ◌*◌, ◌≤◌, ◌<◌, ◌^◌, ◌/◌, ◌%◌, List, [], ◌∷◌, ◌++◌, some, ◌≡◌, refl, sym, ap, ◌∙◌, arith,
  length, get_elem?, slice, All, length-append, append_assoc, append-nil, drop-append,
}
use hopdns.Cache.{Ip}
use hopdns.Errors.{ok}
use hopdns.Server.{ttl}
use hopdns.Text.{Text}
use hopdns.Wire.{be16, be32, u16_bytes, u32_bytes, rtype_a}
use hopdns.Wire.Decode.{
  Rdata, Record, Message, a_of, a_records, read_rdata, read_record, skip_questions, read_records,
  decode,
}
use hopdns.Wire.Decode.Pointed.{skip_name-labels, read_name-pointer}
use hopdns.Wire.Names.Read.{IsHost}
use hopdns.Wire.Names.Wires.{IsLabel, name_bytes}
use hopdns.Wire.Reply.Records.{a_record}
use hopdns.Wire.Reply.Shape.{header, rr_bytes}
use hopdns.Wire.Words.{get_elem?-append_add, slice-append, be16-append, be16-at, be32-at}

-- The rdata of an address.
read_rdata-a :
    (msg : List ℕ) (at ip : ℕ)
    → ip < 2 ^ 32
    → read_rdata msg at rtype_a (u32_bytes ip) ≡ ok (Rdata.a ip)
unfolding read_rdata be32
read_rdata-a msg at ip h =
    let same : ((ip / 2 ^ 24 % 256 * 256 + ip / 2 ^ 16 % 256) * 256 + ip / 256 % 256) * 256
          + ip % 256
        ≡ ip =
      omega arith in
    ap (λ (n : ℕ). ok (Rdata.a n)) same

abbrev pub Fits : Ip → Type 0
Fits ip = ip < 2 ^ 32

-- The A records one behind the other.
abbrev pub records : List Ip → List ℕ
records [] = []
records (ip ∷ ips) = a_record ip ttl ++ records ips

a_of-concat :
    (rs : List Record) (r : Record) (ip : Ip)
    → r.rdata ≡ Rdata.a ip
    → a_of (rs ++ r ∷ []) ≡ a_of rs ++ ip ∷ []
unfolding a_of
a_of-concat [] r ip e = rw (e, a_of) refl
a_of-concat (q ∷ rs) r ip e = go (q.rdata) (a_of-concat rs r ip e)
  where
    after : Rdata → List Ip → List Ip
    after d ips = elim d [
      | Rdata.a x ↦ x ∷ ips
      | Rdata.cname _ ↦ ips
      | Rdata.soa _ _ _ _ _ _ _ ↦ ips
      | Rdata.other _ ↦ ips
    ]

    go :
        (d : Rdata)
        → a_of (rs ++ r ∷ []) ≡ a_of rs ++ ip ∷ []
        → after d (a_of (rs ++ r ∷ [])) ≡ after d (a_of rs) ++ ip ∷ []
    go (Rdata.a x) h = ap (◌∷◌ x) h
    go (Rdata.cname _) h = h
    go (Rdata.soa _ _ _ _ _ _ _) h = h
    go (Rdata.other _) h = h

-- The words of an A record.
module _ (ip : Ip) (after : List ℕ) where
  pointer_word : be16 (a_record ip ttl ++ after) 0 ≡ some 0xC00C
  unfolding be16
  pointer_word = refl

  type_word : be16 (a_record ip ttl ++ after) 2 ≡ some rtype_a
  unfolding be16
  type_word = refl

  ttl_word : be32 (a_record ip ttl ++ after) 6 ≡ some ttl
  unfolding be32
  ttl_word = refl

  length_word : be16 (a_record ip ttl ++ after) 10 ≡ some 4
  unfolding be16
  length_word = refl

module _ (labels : List Text) (head tail msg : List ℕ) (size : length head ≡ 12)
    (whole : msg ≡ head ++ (name_bytes labels ++ tail)) (shaped : All IsLabel labels)
    (host : All IsHost labels) (short : length (name_bytes labels) ≤ 255) where
  read_record-a :
      (xs after : List ℕ) (ip : Ip)
      → msg ≡ xs ++ (a_record ip ttl ++ after)
      → 12 < length xs
      → Fits ip
      → (r : Record) × (read_record msg (length xs) ≡ ok (r, length xs + 16))
        × (r.rdata ≡ Rdata.a ip)
  unfolding read_record
  read_record-a xs after ip e far fits =
      let at = length xs in
      let here = a_record ip ttl ++ after in
      let same : at ≡ at + 0 = omega arith in
      let first : get_elem? msg at ≡ some 0xC0 =
        ap (λ (b : List ℕ). get_elem? b at) e
        ∙ (ap (get_elem? (xs ++ here)) same ∙ get_elem?-append_add xs here 0) in
      let word : (n : ℕ) → be16 msg (at + n) ≡ be16 here n =
        λ n. ap (λ (b : List ℕ). be16 b (at + n)) e ∙ be16-at xs here n in
      let pointer : be16 msg at ≡ some 0xC00C =
        ap (be16 msg) same ∙ word 0 ∙ pointer_word ip after in
      let (name, named) =
        read_name-pointer labels head tail msg at whole size shaped host short far first pointer in
      let typed : be16 msg (at + 2) ≡ some rtype_a = word 2 ∙ type_word ip after in
      let six : at + 2 + 4 ≡ at + 6 = omega arith in
      let timed : be32 msg (at + 2 + 4) ≡ some ttl =
        ap (be32 msg) six
        ∙ ap (λ (b : List ℕ). be32 b (at + 6)) e
        ∙ be32-at xs here 6
        ∙ ttl_word ip after in
      let ten : at + 2 + 8 ≡ at + 10 = omega arith in
      let sized : be16 msg (at + 2 + 8) ≡ some 4 =
        ap (be16 msg) ten ∙ word 10 ∙ length_word ip after in
      let front = xs ++ rr_bytes rtype_a ttl 4 in
      let placed : length front ≡ at + 12 =
        omega (arith, length-append xs (rr_bytes rtype_a ttl 4)) in
      let bytes : slice msg (at + 2 + 10) (at + 2 + 10 + 4) ≡ some (u32_bytes ip) =
        ap (λ (b : List ℕ). slice b (at + 2 + 10) (at + 2 + 10 + 4))
          (e ∙ sym (append_assoc xs (rr_bytes rtype_a ttl 4) (u32_bytes ip ++ after)))
        ∙ slice-append front (u32_bytes ip) after (at + 2 + 10) (at + 2 + 10 + 4)
            (omega (arith, placed)) (omega (arith, placed)) in
      let there : at + 2 + 10 + 4 ≡ at + 16 = omega arith in
      let r : Record = record { name = name; rtype = rtype_a; ttl = ttl; rdata = Rdata.a ip } in
      (
        r,
        rw (named, read_record)
            (rw typed (
              rw timed (
                rw sized (
                  rw bytes (
                    rw (read_rdata-a msg (at + 2 + 10) ip fits)
                      (ap (λ (n : ℕ). ok (r, n)) there)))))),
        refl,
      )

  read_records-addresses :
      (ips : List Ip) (xs after : List ℕ) (out : List Record)
      → msg ≡ xs ++ (records ips ++ after)
      → 12 < length xs
      → All Fits ips
      → (rs : List Record) × (end : ℕ) × (read_records (length ips) msg (length xs) out
          ≡ ok (rs, end))
        × (a_of rs ≡ a_of out ++ ips)
  unfolding read_records
  read_records-addresses [] xs after out e far fits =
      (out, length xs, refl, sym (append-nil (a_of out)))
  read_records-addresses (ip ∷ ips) xs after out e far fits =
      let first : msg ≡ xs ++ (a_record ip ttl ++ (records ips ++ after)) =
        e ∙ ap (λ (b : List ℕ). xs ++ b) (append_assoc (a_record ip ttl) (records ips) after) in
      let (r, read, is_a) = read_record-a xs (records ips ++ after) ip first far (fits.0) in
      let there : length (xs ++ a_record ip ttl) ≡ length xs + 16 =
        omega (arith, length-append xs (a_record ip ttl)) in
      let next : msg ≡ (xs ++ a_record ip ttl) ++ (records ips ++ after) =
        first ∙ sym (append_assoc xs (a_record ip ttl) (records ips ++ after)) in
      let (rs, end, rest, same) =
        read_records-addresses ips (xs ++ a_record ip ttl) after (out ++ r ∷ []) next
          (omega (arith, there)) (fits.1) in
      (
        rs,
        end,
        rw (read, read_records)
            (ap (λ (n : ℕ). read_records (length ips) msg n (out ++ r ∷ [])) (sym there) ∙ rest),
        same
            ∙ (ap (λ (x : List Ip). x ++ ips) (a_of-concat out r ip is_a)
                ∙ append_assoc (a_of out) (ip ∷ []) ips),
      )

-- An answer to a question for these labels, with addresses and then other records.
pub decode-addresses :
    (labels : List Text) (typed rest : List ℕ) (id fl ar : ℕ) (ips : List Ip)
    → length typed ≡ 4
    → All IsLabel labels
    → All IsHost labels
    → length (name_bytes labels) ≤ 255
    → id < 2 ^ 16
    → fl < 2 ^ 16
    → ar < 2 ^ 16
    → length ips < 2 ^ 16
    → All Fits ips
    → (m : Message) × (decode (
          header id fl 1 (length ips) 0 ar
          ++ (name_bytes labels ++ (typed ++ (records ips ++ rest))))
        ≡ ok m)
      × (m.id ≡ id)
      × (m.flags ≡ fl)
      × (a_records m ≡ ips)
unfolding decode skip_questions read_records a_records a_of
decode-addresses labels typed rest id fl ar ips four shaped host short small flags more few fits =
    let n = length ips in
    let body = name_bytes labels ++ (typed ++ (records ips ++ rest)) in
    let head = header id fl 1 n 0 ar in
    let msg = head ++ body in
    let id_read : be16 msg 0 ≡ some id =
      be16-append []
        (u16_bytes fl ++ (u16_bytes 1 ++ (u16_bytes n ++ (u16_bytes 0 ++ (u16_bytes ar ++ body)))))
        id 0 refl small in
    let flags_read : be16 msg 2 ≡ some fl =
      be16-append (u16_bytes id)
        (u16_bytes 1 ++ (u16_bytes n ++ (u16_bytes 0 ++ (u16_bytes ar ++ body)))) fl 2 refl flags in
    let qd_read : be16 msg 4 ≡ some 1 =
      be16-append (u16_bytes id ++ u16_bytes fl)
        (u16_bytes n ++ (u16_bytes 0 ++ (u16_bytes ar ++ body))) 1 4 refl (omega arith) in
    let an_read : be16 msg 6 ≡ some n =
      be16-append (u16_bytes id ++ (u16_bytes fl ++ u16_bytes 1))
        (u16_bytes 0 ++ (u16_bytes ar ++ body)) n 6 refl few in
    let ns_read : be16 msg 8 ≡ some 0 =
      be16-append (u16_bytes id ++ (u16_bytes fl ++ (u16_bytes 1 ++ u16_bytes n)))
        (u16_bytes ar ++ body) 0 8 refl (omega arith) in
    let ar_read : be16 msg 10 ≡ some ar =
      be16-append (u16_bytes id ++ (u16_bytes fl ++ (u16_bytes 1 ++ (u16_bytes n ++ u16_bytes 0))))
        body ar 10 refl more in
    let skipped =
      skip_name-labels labels (typed ++ (records ips ++ rest)) msg 12 shaped
        (drop-append head body) in
    let front = (head ++ name_bytes labels) ++ typed in
    let there : length front ≡ 12 + length (name_bytes labels) + 4 =
      omega (arith, four, length-append (head ++ name_bytes labels) typed) in
    let behind : msg ≡ front ++ (records ips ++ rest) =
      sym (append_assoc (head ++ name_bytes labels) typed (records ips ++ rest)) in
    let (rs, end, read, same) =
      read_records-addresses labels head (typed ++ (records ips ++ rest)) msg refl refl shaped host
        short ips front rest [] behind (omega (arith, there)) fits in
    let here : read_records n msg (12 + length (name_bytes labels) + 4) [] ≡ ok (rs, end) =
      ap (λ (k : ℕ). read_records n msg k []) (sym there) ∙ read in
    (
      record { id = id; flags = fl; answers = rs; authority = []; additional = ar },
      rw (id_read, decode)
          (rw flags_read (
            rw ar_read (
              rw qd_read (rw an_read (rw ns_read (rw (skipped, skip_questions) (rw here refl))))))),
      refl,
      refl,
      same,
    )
