-- ===== src/Server/Merged.antt =====
-- src/server.rs: the whole answer to a question for a job of any cluster.
use hopdns.Base.{
  ℕ, ◌/◌, ◌≤◌, min, List, [], ◌∷◌, ◌++◌, none, some, ◌≡◌, refl, inr, arith, length, take,
}
use hopdns.Cache.{Cache, Ip}
use hopdns.Cnames
use hopdns.Text.{Text}
use hopdns.Wire.Names.{name_text}
use hopdns.Wire.Query.{Query, query, parse_query}
use hopdns.Wire.Reply.{Reply, room}
use hopdns.Wire.Reply.Shape.{Image, image_bytes}
use hopdns.Wire.Reply.Header.{question_image}
use hopdns.Wire.Reply.Finish.{finished, sent}
use hopdns.Server.{Server, handle, look, write_lookup, limit_of}
use hopdns.Server.Look.{IsLabel, look_lem}
use hopdns.Server.Merge.{with_addresses}
use hopdns.Server.Zone.Suffix.{in_zone_iff}
use hopdns.Cache.{get_merged}
use hopdns.Server.Addresses.{free_room, handle-addresses}
use hopdns.Server.Merge.{Wrote, write_merged-Wrote}
use hopdns.Wire.Reply.Shape.{Shows}

write_lookup-merged :
    (s : Server) (c : Cache) (job : Text)
    → IsLabel job
    → (r : Reply) (m : Image) → Shows r m
    → Wrote r
        (write_lookup c (look c (job ++ b'.' ∷ s.domain) s.domain) r)
        (with_addresses (take (min (room r / 16) 75) (get_merged c job)) m)
unfolding write_lookup
write_lookup-merged s c job label r m shows =
    let found = (look_lem c s.domain job [] [] label tt).1 in
    rw (found, write_lookup) (write_merged-Wrote c job r m shows)

-- The addresses that are written.
abbrev pub fitting_merged : Query → ℕ → List Ip → List Ip
fitting_merged q limit ips = take (min (free_room q limit / 16) 75) ips

-- An A question of class IN for a job without a dot and the domain, where some cluster has an address
-- for it, is answered with the first of the addresses of all clusters, as many as fit and at most 75.
pub handle-merged :
    (s : Server) (c : Cache) (msg out : List ℕ) (q : Query) (job : Text)
    → parse_query msg ≡ query q
    → 512 ≤ length out
    → IsLabel job
    → name_text q.qname ≡ some (job ++ b'.' ∷ s.domain)
    → q.qclass ≡ 1
    → q.qtype ≡ 1
    → Cnames.lookup s.cnames (job ++ b'.' ∷ s.domain) ≡ none
    → 1 ≤ length (get_merged c job)
    → (p : List ℕ × ℕ) × (handle s c msg out ≡ some p)
      × (sent p
          ≡ image_bytes (
              finished q.edns (
                with_addresses
                  (fitting_merged q (min (limit_of q.edns) (length out)) (get_merged c job))
                  (question_image q))))
handle-merged s c msg out q job read long label named class_is type_is no_cname some_ip =
    let name : Text = job ++ b'.' ∷ s.domain in
    handle-addresses s c msg out q name (get_merged c job) (λ n. min (n / 16) 75) read long
      (record {
        named = named;
        class_is = class_is;
        type_is = type_is;
        no_cname = no_cname;
        inside = (in_zone_iff name s.domain).1 (inr (job, refl));
      })
      (write_lookup-merged s c job label) (λ n. omega arith) (λ n h. omega arith) some_ip
