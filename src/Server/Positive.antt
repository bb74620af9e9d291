-- ===== src/Server/Positive.antt =====
-- src/server.rs: the whole answer to a question for the job of a cluster.
use hopdns.Base.{
  ℕ, ◌+◌, ◌-◌, ◌/◌, ◌≤◌, min, List, [], ◌∷◌, ◌++◌, none, some, ◌≡◌, refl, ap, ◌∙◌, inr, arith,
  length, take,
}
use hopdns.Cache.{Cache, Ip, get_cluster}
use hopdns.Cnames
use hopdns.Text.{Text}
use hopdns.Wire.Names.{name_text}
use hopdns.Wire.Query.{Query, query, parse_query}
use hopdns.Wire.Reply.{Reply, reserve, room}
use hopdns.Wire.Reply.Shape.{Image, image_bytes}
use hopdns.Wire.Reply.Header.{question_image}
use hopdns.Wire.Reply.Finish.{finished, sent}
use hopdns.Server.{Server, handle, look, write_lookup, limit_of, cluster}
use hopdns.Server.Look.{IsLabel, look_lem}
use hopdns.Server.Merge.{with_addresses, write_cluster-Wrote}
use hopdns.Server.Zone.Suffix.{in_zone_iff}
use hopdns.Server.Addresses.{handle-addresses}
use hopdns.Wire.Reply.Shape.{Shows}
use hopdns.Server.Merge.{Wrote}

-- The addresses that fit into an answer to `q`.
abbrev pub fitting : Query → ℕ → List Ip → List Ip
fitting q limit ips = take ((limit - (12 + length q.question + reserve q.edns)) / 16) ips

-- What a question for a job of a cluster is: its name, class and type, and no CNAME for it.
pub record AsksFor (s : Server) (q : Query) (job clu : Text) : Type 0 where
  pub label : IsLabel job
  pub named : name_text q.qname ≡ some ((job ++ b'.' ∷ clu) ++ b'.' ∷ s.domain)
  pub class_is : q.qclass ≡ 1
  pub type_is : q.qtype ≡ 1
  pub no_cname : Cnames.lookup s.cnames ((job ++ b'.' ∷ clu) ++ b'.' ∷ s.domain) ≡ none

-- The lookup of such a name is written as the addresses of the cluster.
write_lookup-cluster :
    (s : Server) (c : Cache) (job clu : Text) (ips : List Ip)
    → IsLabel job
    → get_cluster c clu job ≡ some ips
    → (r : Reply) (m : Image) → Shows r m
    → Wrote r
        (write_lookup c (look c ((job ++ b'.' ∷ clu) ++ b'.' ∷ s.domain) s.domain) r)
        (with_addresses (take (room r / 16) ips) m)
unfolding write_lookup
write_lookup-cluster s c job clu ips label known r m shows =
    let found = (look_lem c s.domain [] job clu tt label).2 ∙ ap cluster known in
    rw (found, write_lookup) (write_cluster-Wrote ips r m shows)

-- For a datagram that `parse_query` reads as an A question of class IN for a job without a dot, a
-- cluster and the domain, a name that has no CNAME, a cache that has one address or more for it,
-- and a buffer of at least 512 bytes, `handle` sends the header and question of the query with A
-- records for the first of these addresses, in order, as many as fit the limit beside the OPT
-- record, and the OPT record if the query spoke EDNS.
pub handle-cluster :
    (s : Server) (c : Cache) (msg out : List ℕ) (q : Query) (job clu : Text) (ip : Ip)
    (ips : List Ip)
    → parse_query msg ≡ query q
    → 512 ≤ length out
    → AsksFor s q job clu
    → get_cluster c clu job ≡ some (ip ∷ ips)
    → (p : List ℕ × ℕ) × (handle s c msg out ≡ some p)
      × (sent p
          ≡ image_bytes (
              finished q.edns (
                with_addresses
                  (fitting q (min (limit_of q.edns) (length out)) (ip ∷ ips))
                  (question_image q))))
handle-cluster s c msg out q job clu ip ips read long asks known =
    let name : Text = (job ++ b'.' ∷ clu) ++ b'.' ∷ s.domain in
    handle-addresses s c msg out q name (ip ∷ ips) (λ n. n / 16) read long
      (record {
        named = asks.named;
        class_is = asks.class_is;
        type_is = asks.type_is;
        no_cname = asks.no_cname;
        inside = (in_zone_iff name s.domain).1 (inr (job ++ b'.' ∷ clu, refl));
      })
      (write_lookup-cluster s c job clu (ip ∷ ips) asks.label known) (λ n. omega arith)
      (λ n h. omega arith) (omega arith)
