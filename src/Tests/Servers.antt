-- ===== src/Tests/Servers.antt =====
-- src/server.rs and src/wire.rs: a query for "web.hop.local" with EDNS, and the answer to it.
use Prim.Native.Nat.{bit_and}
use hopdns.Base.{
  ℕ, Bool, true, ◌&&◌, ltb, All, ◌/◌, ◌^◌, ◌≤◌, ◌<◌, min, List, [], ◌∷◌, ◌++◌, none, some, ◌≡◌, ◌≢◌,
  refl, arith, length, take, replicate, length-replicate,
}
use hopdns.Cache
use hopdns.Cache.{get_merged, get_cluster}
use hopdns.Server.{Server, Lookup, look, handle, limit_of, write_merged}
use hopdns.Server.Handle.{handle_bad}
use hopdns.Errors.{ok}
use hopdns.Server.Asked.{Built, query_of, handle-decode}
use hopdns.Wire.Decode.{Message, a_records, decode}
use hopdns.Wire.Names.Read.{HostName}
use hopdns.Server.Silent.{handle-silent}
use hopdns.Wire.Query.Refused.{IsByte}
use hopdns.Server.Look.{IsLabel, look_lem}
use hopdns.Server.Merge.{Wrote, with_addresses, write_merged-Wrote}
use hopdns.Cnames.{lookup, lower_into, climb}
use hopdns.Table
use hopdns.Text.{
  codes, text_eq, compare_text, is_empty, lowercase, to_ascii_lowercase, without_dot, strip_suffix,
  ends_with, split, split_pieces,
}
use hopdns.Server.Positive.{AsksFor, fitting, handle-cluster}
use hopdns.Wire.{no_error, not_imp, be16, u16_bytes, qr_bit, rtype_a, class_in}
use hopdns.Wire.Names.{
  name_text, name_text_walk, skip_plain_name, skip_plain_walk, skip_name, skip_walk, put_name,
  put_labels, end_name,
}
use hopdns.Wire.Query.{
  Query, Bad, query, bad, parse_query, parse_counts, parse_question, find_opt, encode_query,
  opt_record, query_head, encode_tail, encode_opt,
}
use hopdns.Wire.Query.RoundTrip.{parse_query-encode_query}
use hopdns.Wire.Reply.{Reply, head_flags, room}
use hopdns.Wire.Reply.Header.{question_image}
use hopdns.Wire.Reply.Finish.{finished, sent}
use hopdns.Wire.Reply.Shape.{image_bytes, header, Shows}
use hopdns.Tests.Caches.{two_clusters}
use hopdns.Tests.Names

-- "web.hop.local" on the wire.
abbrev qname_bytes : List ℕ
qname_bytes = 3 ∷ codes "web" ++ (3 ∷ codes "hop" ++ (5 ∷ codes "local" ++ 0 ∷ []))

abbrev question_bytes : List ℕ
question_bytes = qname_bytes ++ (u16_bytes rtype_a ++ u16_bytes class_in)

-- An OPT record with the size 4096.
abbrev pub datagram : List ℕ
datagram =
    header 258 256 1 0 0 1 ++ (question_bytes ++ (0 ∷ 0 ∷ 41 ∷ 16 ∷ 0 ∷ 0 ∷ 0 ∷ 0 ∷ 0 ∷ 0 ∷ 0 ∷ []))

abbrev pub sample_query : Query
sample_query = record {
  id = 258;
  flags = 256;
  question = question_bytes;
  qname = qname_bytes;
  qtype = 1;
  qclass = 1;
  edns = some 4096;
}

pub datagram_read : parse_query datagram ≡ query sample_query
unfolding parse_query parse_counts parse_question find_opt be16 skip_plain_name skip_plain_walk
    skip_name skip_walk
datagram_read = refl

abbrev pub sample_server : Server
sample_server = record { domain = codes "hop.local"; cnames = Names.sample }

abbrev pub buffer : List ℕ
buffer = replicate 600 0

pub buffer_long : 512 ≤ length buffer
buffer_long = omega (arith, length-replicate {A = ℕ} 600 0)

-- The opcode is UPDATE.
abbrev update_datagram : List ℕ
update_datagram = header 7 0x2800 1 0 0 0 ++ question_bytes

update_refused : parse_query update_datagram ≡ bad (Bad.reply 7 0x2800 not_imp)
unfolding parse_query parse_counts be16
update_refused = refl

handle_bad_example :
    (p : List ℕ × ℕ) × (handle sample_server two_clusters update_datagram buffer ≡ some p)
    × (sent p ≡ header 7 (head_flags 0x2800 not_imp) 0 0 0 0)
handle_bad_example =
    handle_bad sample_server two_clusters update_datagram buffer 7 0x2800 not_imp update_refused
      (omega (arith, buffer_long))

-- A datagram with the QR bit.
abbrev response : List ℕ
response = header 7 0x8180 1 0 0 0 ++ question_bytes

response_flags : be16 response 2 ≡ some 0x8180
unfolding be16
response_flags = refl

response_bit : bit_and 0x8180 qr_bit ≢ 0
response_bit h = cc

-- A reply that has begun, with room for three addresses and the OPT record.
abbrev begun : Reply
begun = record {
  buf = image_bytes (question_image sample_query) ++ replicate 60 0;
  len = 31;
  limit = 91;
  an = 0;
  ns = 0;
  ar = 0;
  edns = some 4096;
}

begun-Shows : Shows begun (question_image sample_query)
begun-Shows = record {
  rest = replicate 60 0;
  layout = refl;
  len_is = refl;
  an_is = refl;
  ns_is = refl;
  ar_is = refl;
  within = omega arith;
  limit_le = omega arith;
}

write_merged-Wrote_example : Wrote begun (write_merged two_clusters (codes "web") begun) (
    with_addresses
      (take (min (room begun / 16) 75) (get_merged two_clusters (codes "web")))
      (question_image sample_query))
write_merged-Wrote_example =
    write_merged-Wrote two_clusters (codes "web") begun (question_image sample_query) begun-Shows

begun-room : 16 ≤ room begun
unfolding room
begun-room = omega arith

question_flags : head_flags 256 no_error < 2 ^ 16
unfolding head_flags
question_flags = omega arith

pub web-IsLabel : IsLabel (codes "web")
web-IsLabel = (refl, (refl, (refl, tt)))

look_lem_example :
    (look two_clusters (codes "hop.local") (codes "hop.local") ≡ Lookup.apex)
    × (look two_clusters (codes "web" ++ b'.' ∷ codes "hop.local") (codes "hop.local")
        ≡ Lookup.merged (codes "web"))
    × (look two_clusters
          ((codes "web" ++ b'.' ∷ codes "east") ++ b'.' ∷ codes "hop.local")
          (codes "hop.local")
        ≡ Lookup.cluster (get_cluster two_clusters (codes "east") (codes "web")))
look_lem_example =
    look_lem two_clusters (codes "hop.local") (codes "web") (codes "web") (codes "east") web-IsLabel
      web-IsLabel

-- "web.east.hop.local", without EDNS.
abbrev pub east_name : List ℕ
east_name =
    3 ∷ codes "web" ++ (4 ∷ codes "east" ++ (3 ∷ codes "hop" ++ (5 ∷ codes "local" ++ 0 ∷ [])))

abbrev pub east_question : List ℕ
east_question = east_name ++ (u16_bytes rtype_a ++ u16_bytes class_in)

abbrev pub east_datagram : List ℕ
east_datagram = header 9 256 1 0 0 0 ++ east_question

abbrev pub east_query : Query
east_query = record {
  id = 9;
  flags = 256;
  question = east_question;
  qname = east_name;
  qtype = 1;
  qclass = 1;
  edns = none;
}

pub east_read : parse_query east_datagram ≡ query east_query
unfolding parse_query parse_counts parse_question find_opt be16 skip_plain_name skip_plain_walk
    skip_name skip_walk
east_read = refl

pub east-AsksFor : AsksFor sample_server east_query (codes "web") (codes "east")
unfolding name_text name_text_walk to_ascii_lowercase lookup lower_into climb without_dot
    strip_suffix ends_with text_eq lowercase is_empty Table.get compare_text
east-AsksFor = record {
  label = web-IsLabel;
  named = refl;
  class_is = refl;
  type_is = refl;
  no_cname = refl;
}

pub east_known : get_cluster two_clusters (codes "east") (codes "web") ≡ some (1 ∷ 2 ∷ [])
unfolding get_cluster Cache.set Cache.new Table.get Table.insert Table.modify Table.new compare_text
east_known = refl

handle-cluster_example :
    (p : List ℕ × ℕ) × (handle sample_server two_clusters east_datagram buffer ≡ some p)
    × (sent p
        ≡ image_bytes (
            finished east_query.edns (
              with_addresses
                (fitting east_query (min (limit_of east_query.edns) (length buffer)) (1 ∷ 2 ∷ []))
                (question_image east_query))))
handle-cluster_example =
    handle-cluster sample_server two_clusters east_datagram buffer east_query (codes "web")
      (codes "east") 1 (2 ∷ []) east_read buffer_long east-AsksFor east_known

are_bytes : List ℕ → Bool
are_bytes [] = true
are_bytes (b ∷ bs) = ltb b 256 && are_bytes bs

are_bytes-All : (bs : List ℕ) → are_bytes bs ≡ true → All IsByte bs
unfolding are_bytes
are_bytes-All [] h = tt
are_bytes-All (b ∷ bs) h = (grind arith, are_bytes-All bs (grind arith))

update_bytes : are_bytes update_datagram ≡ true
unfolding are_bytes
update_bytes = refl

-- What the server sends for the UPDATE.
refusal :
    (p : List ℕ × ℕ) × (handle sample_server two_clusters update_datagram buffer ≡ some p)
    × (sent p ≡ header 7 (head_flags 0x2800 not_imp) 0 0 0 0)
refusal =
    handle_bad sample_server two_clusters update_datagram buffer 7 0x2800 not_imp update_refused
      (omega (arith, buffer_long))

handle-silent_example : handle sample_server two_clusters (sent (refusal.0)) buffer ≡ none
handle-silent_example =
    handle-silent sample_server sample_server two_clusters two_clusters update_datagram buffer
      buffer (refusal.0) (are_bytes-All update_datagram update_bytes) buffer_long (refusal.1)

-- "Web.hop" with a trailing dot.
abbrev built : List ℕ
built =
    header 258 256 1 0 0 1
    ++ (3 ∷ codes "Web" ++ (3 ∷ codes "hop" ++ 0 ∷ []))
    ++ (0 ∷ 1 ∷ 0 ∷ 1 ∷ [])
    ++ (0 ∷ 0 ∷ 41 ∷ 4 ∷ 208 ∷ 0 ∷ 0 ∷ 0 ∷ 0 ∷ 0 ∷ 0 ∷ [])

query_built : encode_query 258 (codes "Web.hop.") 1 (some 1232) (replicate 36 0) ≡ ok (built, 36)
unfolding encode_query query_head encode_tail encode_opt opt_record put_name put_labels end_name
    is_empty split split_pieces without_dot strip_suffix ends_with text_eq
query_built = refl

parse_query-encode_query_example :
    (q : Query) × (parse_query (take 36 built) ≡ query q)
    × (q.id ≡ 258)
    × (q.flags ≡ 256)
    × (name_text q.qname ≡ some (codes "web.hop"))
    × (q.qtype ≡ 1)
    × (q.qclass ≡ 1)
    × (q.edns ≡ some 1232)
unfolding lowercase without_dot strip_suffix ends_with text_eq to_ascii_lowercase
parse_query-encode_query_example =
    parse_query-encode_query 258 1 (codes "Web.hop.") (some 1232) (replicate 36 0) (built, 36)
      query_built (omega arith) (omega arith) (omega arith)
      (refl, (refl, (refl, (refl, (refl, (refl, (refl, tt)))))))

east_built :
    encode_query 9 (codes "web.east.hop.local") 1 none (replicate 36 0) ≡ ok (east_datagram, 36)
unfolding encode_query query_head encode_tail encode_opt put_name put_labels end_name is_empty split
    split_pieces without_dot strip_suffix ends_with text_eq
east_built = refl

pub east-Built :
    Built sample_server
      (codes "web")
      (codes "east")
      9
      (codes "web.east.hop.local")
      none
      east_datagram
unfolding without_dot strip_suffix ends_with text_eq lowercase to_ascii_lowercase lookup lower_into
    climb is_empty Table.get compare_text
east-Built = record {
  buf = replicate 36 0;
  encoded = (east_datagram, 36);
  encoding = east_built;
  msg_is = refl;
  id_small = omega arith;
  edns_small = tt;
  host = east_host;
  asks = refl;
  label = web-IsLabel;
  unaliased = refl;
}
  where
    east_host : HostName (codes "web.east.hop.local")
    east_host = (
      refl,
      (
        refl,
        (
          refl,
          (
            refl,
            (
              refl,
              (
                refl,
                (
                  refl,
                  (
                    refl,
                    (
                      refl,
                      (refl, (refl, (refl, (refl, (refl, (refl, (refl, (refl, (refl, tt))))))))),
                    ),
                  ),
                ),
              ),
            ),
          ),
        ),
      ),
    )

handle-decode_example :
    (a : List ℕ × ℕ) × (m : Message) × (handle sample_server two_clusters east_datagram buffer
      ≡ some a)
    × (decode (sent a) ≡ ok m)
    × (m.id ≡ 9)
    × (a_records m
        ≡ fitting
            (query_of sample_server
              (codes "web")
              (codes "east")
              9
              (codes "web.east.hop.local")
              none
              east_datagram
              east-Built)
            (min (limit_of none) (length buffer))
            (1 ∷ 2 ∷ []))
handle-decode_example =
    handle-decode sample_server (codes "web") (codes "east") 9 (codes "web.east.hop.local") none
      east_datagram east-Built two_clusters buffer 1 (2 ∷ []) east_known
      (omega arith, (omega arith, tt)) buffer_long
