-- ===== src/Server.antt =====
-- src/server.rs: one datagram in, one answer out.
pub mod Zone
pub mod Merge
pub mod Answer
pub mod Handle
pub mod Look
pub mod Addresses
pub mod Positive
pub mod Merged
pub mod Buffer
pub mod Codes
pub mod Verdict
pub mod Known
pub mod Coded
pub mod Silent
pub mod Asked
use hopdns.Base.{
  flatten, ℕ, zero, suc, ◌+◌, ◌-◌, min, max, Bool, true, false, not, ◌&&◌, ◌||◌, List, [], ◌∷◌,
  ◌++◌, Option, none, some, leb, ltb, ◌==◌, if◌then◌else◌, length, take,
}
use hopdns.Cache
use hopdns.Cache.{Cache, Ip}
use hopdns.Cnames
use hopdns.Cnames.{Cnames}
use hopdns.Errors.{Result, ok, err}
use hopdns.Text.{Text, codes, lowercase, is_empty, without_dot, split_once}
use hopdns.Text.Space.{trim}
use hopdns.Wire.{
  Rcode, serv_fail, nx_domain, refused, class_in, class_any, rtype_a, rtype_any, udp_max, edns_max,
}
use hopdns.Wire.Names.{name_text}
use hopdns.Wire.Query.{Query, Bad, Parsed, query, bad, parse_query}
use hopdns.Wire.Reply
use hopdns.Wire.Reply.{
  Reply, M, set_rcode, answer_a, answer_cname, authority_soa, answers, bare, start, finish,
}
use hopdns.Server.Zone.{in_zone}

-- src/lib.rs: `DEFAULT_DOMAIN` and `TTL`.
abbrev pub default_domain : Text
default_domain = codes "hop.local"

abbrev pub ttl : ℕ
ttl = 5

-- `(EDNS_MAX - HEADER_LEN - 5) / 16`.
abbrev pub max_answers : ℕ
max_answers = 75

pub record Server : Type 0 where
  pub domain : Text
  pub cnames : Cnames

pub data Lookup : Type 0 where
  cluster : Option (List Ip) → Lookup
  merged : Text → Lookup
  apex : Lookup

unfoldable pub new : Text → Server
new domain =
    let d = without_dot (trim domain) in
    record {
      domain = lowercase (if is_empty d then default_domain else d);
      cnames = Cnames.default;
    }

unfoldable pub set_cnames : Cnames → Server → Server
set_cnames c s = record s { cnames = c }

-- The loop over the addresses of one cluster; full is the end of it.
pub write_cluster : List Ip → Reply → Reply
write_cluster [] r = r
write_cluster (ip ∷ ips) r =
    let (r', written) = answer_a ip ttl r in
    elim written [ ok _ ↦ write_cluster ips r' | err _ ↦ r' ]

-- The loops of `write_merged`, one behind the other. `seen` is `seen[..n]`.
pub write_unseen : List Ip → List Ip → Reply → Reply
write_unseen [] seen r = r
write_unseen (ip ∷ ips) seen r = elim (Cache.contains seen ip) [
  | true ↦ write_unseen ips seen r
  | false ↦ elim (ltb (length seen) max_answers) [
    | false ↦ r
    | true ↦
        let (r', written) = answer_a ip ttl r in
        elim written [ ok _ ↦ write_unseen ips (seen ++ ip ∷ []) r' | err _ ↦ r' ]
  ]
]

unfoldable pub write_merged : Cache → Text → Reply → Reply
write_merged c job r = write_unseen (flatten (Cache.merged c job)) [] r

-- What the name in front of the domain asks for: `len` and `get` of the name, and `split_once`.
pub look : Cache → Text → Text → Lookup
look c name domain =
    if ltb (length name) (length domain + 1)
    then apex
    else let prefix = take (length name - (length domain + 1)) name in
      elim (split_once b'.' prefix) [
        | some (service, clu) ↦ cluster (Cache.get_cluster c clu service)
        | none ↦ merged prefix
      ]

pub exists : Cache → Lookup → Bool
exists c apex = true
exists c (cluster (some ips)) = true
exists c (cluster none) = false
exists c (merged job) = Cache.has_job c job || Cache.has_cluster c job

pub write_lookup : Cache → Lookup → Reply → Reply
write_lookup c apex r = r
write_lookup c (cluster (some ips)) r = write_cluster ips r
write_lookup c (cluster none) r = r
write_lookup c (merged job) r = write_merged c job r

-- No answer: NXDOMAIN for an unknown name, and the SOA.
pub negative : Bool → Text → M (Unit {0})
negative known domain r = authority_soa domain ttl (if not known then set_rcode nx_domain r else r)

pub service : Server → Cache → Text → ℕ → M (Unit {0})
service s c name qtype r =
    let found = look c name s.domain in
    let r' = if qtype == rtype_a || qtype == rtype_any then write_lookup c found r else r in
    if answers r' == 0 then negative (exists c found) s.domain r' else (r', ok tt)

-- The name was read: the order of the decisions.
pub answer_name : Server → Cache → Query → Text → M (Unit {0})
answer_name s c q name r =
    if not (q.qclass == class_in) && not (q.qclass == class_any)
    then (set_rcode refused r, ok tt)
    else elim (Cnames.lookup s.cnames name) [
      | some target ↦ answer_cname target ttl r
      | none ↦
          if in_zone name s.domain
          then service s c name q.qtype r
          else elim (Cnames.zone_of s.cnames name) [
            | some zone ↦ authority_soa zone ttl (set_rcode nx_domain r)
            | none ↦ (set_rcode refused r, ok tt)
          ]
    ]

unfoldable pub answer : Server → Cache → Query → M (Unit {0})
answer s c q r = elim (name_text q.qname) [
  | none ↦ (set_rcode refused r, ok tt)
  | some name ↦ answer_name s c q name r
]

-- `usize::from(size).clamp(UDP_MAX, EDNS_MAX)`.
unfoldable pub limit_of : Option ℕ → ℕ
limit_of none = udp_max
limit_of (some size) = min (max size udp_max) edns_max

-- A reply that began is finished: an error of `answer` is SERVFAIL.
pub complete : Server → Cache → Query → Reply → List ℕ × ℕ
complete s c q r =
    let (r', answered) = answer s c q r in
    finish (elim answered [ ok _ ↦ r' | err _ ↦ set_rcode serv_fail r' ])

pub handle_query : Server → Cache → Query → List ℕ → Option (List ℕ × ℕ)
handle_query s c q out = elim (start out q (limit_of q.edns)) [
  | ok r ↦ some (complete s c q r)
  | err _ ↦ none
]

-- The buffer and the length of the answer; `none` where nothing is sent.
unfoldable pub handle : Server → Cache → List ℕ → List ℕ → Option (List ℕ × ℕ)
handle s c msg out = elim (parse_query msg) [
  | query q ↦ handle_query s c q out
  | bad Bad.drop ↦ none
  | bad (Bad.reply id flags rcode) ↦ elim (bare out id flags rcode udp_max) [
    | ok r ↦ some (finish r)
    | err _ ↦ none
  ]
]
