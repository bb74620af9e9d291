-- ===== src/Server/Asked.antt =====
-- src/server.rs and src/wire.rs: a query that is built, answered and read back.
use hopdns.Base.{
  ℕ, suc, ◌+◌, ◌-◌, ◌/◌, ◌≤◌, ◌<◌, ◌^◌, min, List, [], ◌∷◌, ◌++◌, Option, none, some, ◌≡◌, refl,
  sym, ap, ◌∙◌, arith, length, take, All, All-take, length-take, append_assoc, append-nil,
}
use hopdns.Cache.{Cache, Ip, get_cluster}
use hopdns.Cnames
use hopdns.Errors.{ok}
use hopdns.Server.{Server, ttl, handle, limit_of}
use hopdns.Server.Handle.{limit_of-bounds}
use hopdns.Server.Look.{IsLabel}
use hopdns.Server.Merge.{with_addresses}
use hopdns.Server.Positive.{AsksFor, fitting, handle-cluster}
use hopdns.Text.{Text, without_dot, lowercase}
use hopdns.Wire.{no_error, u16_bytes, rtype_a, class_in}
use hopdns.Wire.Decode.{Message, a_records, decode}
use hopdns.Wire.Decode.Addresses
use hopdns.Wire.Decode.Addresses.{records, decode-addresses}
use hopdns.Wire.Names.Read.{HostName, IsHost, labels_of-IsHost, name_text-labels_of}
use hopdns.Wire.Names.Wires
use hopdns.Wire.Names.Wires.{labels_of, name_bytes}
use hopdns.Wire.Query.{Query, query, parse_query, encode_query}
use hopdns.Wire.Query.Built.{encode_query-datagram}
use hopdns.Wire.Query.RoundTrip.{Fits, asked, parse_query-datagram}
use hopdns.Wire.Reply.{head_flags, opt_reply, reserve}
use hopdns.Wire.Reply.Finish.{finished, sent}
use hopdns.Wire.Reply.Header.{question_image}
use hopdns.Wire.Reply.Records.{a_record}
use hopdns.Wire.Reply.Shape.{Image, image_bytes, header, with_answer}

with_addresses-records :
    (ips : List Ip) (m : Image)
    → m.an + length ips < 2 ^ 16
    → with_addresses ips m ≡ record m { an = m.an + length ips; body = m.body ++ records ips }
unfolding with_addresses
with_addresses-records [] m few =
    let same : m.an ≡ m.an + 0 = omega arith in
    ap (λ (n : ℕ). record m { an = n }) same
    ∙ ap (λ (b : List ℕ). record m { an = m.an + 0; body = b }) (sym (append-nil m.body))
with_addresses-records (ip ∷ ips) m few =
    let m' = with_answer (a_record ip ttl) m in
    let counted : m'.an + length ips ≡ m.an + suc (length ips) = omega arith in
    with_addresses-records ips m' (omega arith)
    ∙ (ap (λ (n : ℕ). record m { an = n; body = (m.body ++ a_record ip ttl) ++ records ips })
          counted
        ∙ ap (λ (b : List ℕ). record m { an = m.an + suc (length ips); body = b })
            (append_assoc m.body (a_record ip ttl) (records ips)))

-- What the OPT record adds.
abbrev opt_tail : Option ℕ → List ℕ
opt_tail none = []
opt_tail (some _) = opt_reply

abbrev opt_more : Option ℕ → ℕ
opt_more none = 0
opt_more (some _) = 1

finished-bytes :
    (edns : Option ℕ) (id fl n : ℕ) (name typed bytes : List ℕ)
    → image_bytes (
        finished edns (record {
          id = id;
          flags = fl;
          qd = 1;
          an = n;
          ns = 0;
          ar = 0;
          body = (name ++ typed) ++ bytes;
        }))
      ≡ header id fl 1 n 0 (opt_more edns) ++ (name ++ (typed ++ (bytes ++ opt_tail edns)))
finished-bytes none id fl n name typed bytes =
    ap (λ (b : List ℕ). header id fl 1 n 0 0 ++ b)
      (append_assoc name typed bytes
        ∙ ap (λ (b : List ℕ). name ++ (typed ++ b)) (sym (append-nil bytes)))
finished-bytes (some _) id fl n name typed bytes =
    ap (λ (b : List ℕ). header id fl 1 n 0 1 ++ b)
      (append_assoc (name ++ typed) bytes opt_reply ∙ append_assoc name typed (bytes ++ opt_reply))

answer_flags : head_flags 256 no_error < 2 ^ 16
unfolding head_flags
answer_flags = omega arith

opt_more-lt : (edns : Option ℕ) → opt_more edns < 2 ^ 16
opt_more-lt none = omega arith
opt_more-lt (some _) = omega arith

-- An answer with addresses, to a question for these labels, is read back.
pub decode-answer :
    (labels : List Text) (id : ℕ) (edns : Option ℕ) (ips : List Ip) (bytes : List ℕ)
    → All Wires.IsLabel labels
    → All IsHost labels
    → length (name_bytes labels) ≤ 255
    → id < 2 ^ 16
    → length ips < 2 ^ 16
    → All Addresses.Fits ips
    → bytes
      ≡ image_bytes
          (finished edns (with_addresses ips (question_image (asked id rtype_a labels edns))))
    → (m : Message) × (decode bytes ≡ ok m) × (m.id ≡ id) × (a_records m ≡ ips)
decode-answer labels id edns ips bytes shaped host short small few wide e =
    let q : Query = asked id rtype_a labels edns in
    let typed = u16_bytes rtype_a ++ u16_bytes class_in in
    let fl = head_flags 256 no_error in
    let counted : 0 + length ips ≡ length ips = omega arith in
    let message : bytes
        ≡ header id fl 1 (length ips) 0 (opt_more edns)
          ++ (name_bytes labels ++ (typed ++ (records ips ++ opt_tail edns))) =
      e
      ∙ (ap (λ (m : Image). image_bytes (finished edns m))
            (with_addresses-records ips (question_image q) (omega (arith, few)))
          ∙ ap
              (λ (n : ℕ). image_bytes (
                finished edns
                  (record (question_image q) { an = n; body = q.question ++ records ips })))
              counted
          ∙ finished-bytes edns id fl (length ips) (name_bytes labels) typed (records ips)) in
    let (m, decoded, id_is, _, same) =
      decode-addresses labels typed (opt_tail edns) id fl (opt_more edns) ips refl shaped host short
        small answer_flags (opt_more-lt edns) few wide in
    (m, ap decode message ∙ decoded, id_is, same)

-- Of the addresses those that fit are fewer than 2^16.
pub fitting-few :
    (q : Query) (n : ℕ) (ips : List Ip) → length (fitting q (min (limit_of q.edns) n) ips) < 2 ^ 16
fitting-few q n ips = omega (
  arith,
  length-take ((min (limit_of q.edns) n - (12 + length q.question + reserve q.edns)) / 16) ips,
  limit_of-bounds q.edns,
)

-- A query that was built for the job of a cluster: how it is read, and that it asks for that job.
pub record Built (s : Server) (job clu : Text) (id : ℕ) (name : Text) (edns : Option ℕ)
    (msg : List ℕ) : Type 0 where
  pub buf : List ℕ
  pub encoded : List ℕ × ℕ
  pub encoding : encode_query id name rtype_a edns buf ≡ ok encoded
  pub msg_is : msg ≡ take (encoded.1) (encoded.0)
  pub id_small : id < 2 ^ 16
  pub edns_small : Fits edns
  pub host : HostName (without_dot name)
  pub asks : lowercase (without_dot name) ≡ (job ++ b'.' ∷ clu) ++ b'.' ∷ s.domain
  pub label : IsLabel job
  pub unaliased : Cnames.lookup s.cnames ((job ++ b'.' ∷ clu) ++ b'.' ∷ s.domain) ≡ none

module _ (s : Server) (job clu : Text) (id : ℕ) (name : Text) (edns : Option ℕ) (msg : List ℕ)
    (b : Built s job clu id name edns msg) where
  abbrev pub query_of : Query
  query_of = asked id rtype_a (labels_of (without_dot name)) edns

  pub parse_query-Built : parse_query msg ≡ query query_of
  parse_query-Built =
      let (built, shaped, short) =
        encode_query-datagram id rtype_a name edns b.buf b.encoded b.encoding in
      ap parse_query (b.msg_is ∙ built)
      ∙ parse_query-datagram id rtype_a (labels_of (without_dot name)) edns b.id_small (omega arith)
          b.edns_small shaped short

  pub Built-AsksFor : AsksFor s query_of job clu
  Built-AsksFor =
      let (_, shaped, short) =
        encode_query-datagram id rtype_a name edns b.buf b.encoded b.encoding in
      record {
        label = b.label;
        named = name_text-labels_of (without_dot name) b.host shaped short ∙ ap some b.asks;
        class_is = refl;
        type_is = refl;
        no_cname = b.unaliased;
      }

  pub decode-Built :
      (ips : List Ip) (bytes : List ℕ)
      → length ips < 2 ^ 16
      → All Addresses.Fits ips
      → bytes ≡ image_bytes (finished edns (with_addresses ips (question_image query_of)))
      → (m : Message) × (decode bytes ≡ ok m) × (m.id ≡ id) × (a_records m ≡ ips)
  decode-Built ips bytes few wide e =
      let (_, shaped, short) =
        encode_query-datagram id rtype_a name edns b.buf b.encoded b.encoding in
      decode-answer (labels_of (without_dot name)) id edns ips bytes shaped
        (labels_of-IsHost (without_dot name) b.host) short b.id_small few wide e

  -- For a query that `encode_query` built for the name, of host bytes and dots, of a job without a
  -- dot, a cluster and the domain, with an id and an EDNS size of 16 bits and no CNAME for the
  -- name; a cache that has at least one address for the job, all of 32 bits; and a buffer of 512
  -- bytes or more: `handle` answers the query, and `decode` reads the answer as a message with its
  -- id and, as addresses, the first of those of the cache, in order, as many as fit the limit.
  pub handle-decode :
      (c : Cache) (out : List ℕ) (ip : Ip) (ips : List Ip)
      → get_cluster c clu job ≡ some (ip ∷ ips)
      → All Addresses.Fits (ip ∷ ips)
      → 512 ≤ length out
      → (a : List ℕ × ℕ) × (m : Message) × (handle s c msg out ≡ some a)
        × (decode (sent a) ≡ ok m)
        × (m.id ≡ id)
        × (a_records m ≡ fitting query_of (min (limit_of edns) (length out)) (ip ∷ ips))
  handle-decode c out ip ips known wide long =
      let (a, answered, bytes) =
        handle-cluster s c msg out query_of job clu ip ips parse_query-Built long Built-AsksFor
          known in
      let limit = min (limit_of edns) (length out) in
      let (m, decoded, id_is, same) =
        decode-Built (fitting query_of limit (ip ∷ ips)) (sent a)
          (fitting-few query_of (length out) (ip ∷ ips))
          (All-take Addresses.Fits ((limit - (12 + length (query_of.question) + reserve edns)) / 16)
            (ip ∷ ips) wide)
          bytes in
      (a, m, answered, decoded, id_is, same)
