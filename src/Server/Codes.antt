-- ===== src/Server/Codes.antt =====
-- src/server.rs: the code that each step of an answer leaves, against a decision table.
use hopdns.Base.{
  ℕ, ◌^◌, ◌<◌, Bool, true, false, not, ◌&&◌, ◌||◌, List, [], ◌∷◌, Option, none, some, ◌≡◌, refl, ap,
  ◌∙◌, ◌==◌, if◌then◌else◌, flatten,
}
use hopdns.Cache
use hopdns.Cache.{Cache, Ip}
use hopdns.Cnames
use hopdns.Errors.{Result, ok}
use hopdns.Server.{
  Server, Lookup, cluster, merged, apex, ttl, write_unseen, write_merged, write_lookup, look,
  exists, negative, service, answer_name,
}
use hopdns.Server.Answer.{write_lookup-kept}
use hopdns.Server.Zone.{in_zone}
use hopdns.Text.{Text}
use hopdns.Wire.{Rcode, no_error, nx_domain, refused, class_in, class_any, rtype_a, rtype_any}
use hopdns.Wire.Names.{name_text}
use hopdns.Wire.Query.{Query}
use hopdns.Wire.Reply.{Reply, set_rcode, answer_cname, authority_soa, answers}
use hopdns.Wire.Reply.Kept.{
  Kept, answer_a-Kept, set_rcode-Kept, answer_cname-Kept, authority_soa-Kept,
}

-- The code for a name: no error for an alias and for what the cache knows, NXDOMAIN for what it does
-- not know under the domain or under the zone of an alias, REFUSED for the rest.
abbrev pub name_verdict : Server → Cache → Text → Rcode
name_verdict s c name = elim (Cnames.lookup s.cnames name) [
  | some _ ↦ no_error
  | none ↦
      if in_zone name s.domain
      then if exists c (look c name s.domain) then no_error else nx_domain
      else elim (Cnames.zone_of s.cnames name) [ some _ ↦ nx_domain | none ↦ refused ]
]

-- REFUSED for a name that does not read and for a class that is not IN or ANY.
abbrev pub verdict : Server → Cache → Query → Rcode
verdict s c q = elim (name_text q.qname) [
  | none ↦ refused
  | some name ↦
      if not (q.qclass == class_in) && not (q.qclass == class_any)
      then refused
      else name_verdict s c name
]

-- Nothing is written for what the cache does not know.
write_lookup-unknown :
    (c : Cache) (l : Lookup) (r : Reply) → exists c l ≡ false → write_lookup c l r ≡ r
unfolding write_lookup exists write_merged write_unseen Cache.has_job
write_lookup-unknown c apex r h = refl
write_lookup-unknown c (cluster (some ips)) r h = cc
write_lookup-unknown c (cluster none) r h = refl
write_lookup-unknown c (merged job) r h = go (Cache.merged c job) h
  where
    go :
        (lists : List (List Ip))
        → ((elim lists as (λ _. Bool) [ [] ↦ false | _ ∷ _ ↦ true ]) || Cache.has_cluster c job)
          ≡ false
        → write_unseen (flatten lists) [] r ≡ r
    go [] e = refl
    go (ips ∷ lists) e = cc

module _ (q : Query) (limit : ℕ) (small : q.flags < 2 ^ 16) where
  if-Kept :
      (b : Bool) (rc : Rcode) (p p' : Reply × Result (Unit {0}))
      → (b ≡ true → Kept q limit rc (p.0))
      → (b ≡ false → Kept q limit rc (p'.0))
      → Kept q limit rc ((if b then p else p').0)
  if-Kept true rc p p' k k' = k refl
  if-Kept false rc p p' k k' = k' refl

  written-Kept :
      (b : Bool) (c : Cache) (found : Lookup) (r : Reply)
      → Kept q limit no_error r
      → Kept q limit no_error (if b then write_lookup c found r else r)
  written-Kept true c found r k =
      write_lookup-kept (Kept q limit no_error) (answer_a-Kept q limit no_error) c found r k
  written-Kept false c found r k = k

  service-Kept :
      (s : Server) (c : Cache) (name : Text) (qtype : ℕ) (r : Reply)
      → r.an ≡ 0
      → Kept q limit no_error r
      → Kept q limit
          (if exists c (look c name s.domain) then no_error else nx_domain)
          ((service s c name qtype r).0)
  unfolding service negative answers
  service-Kept s c name qtype r fresh k = go (exists c found) refl
    where
      found : Lookup
      found = look c name s.domain

      asked : Bool
      asked = qtype == rtype_a || qtype == rtype_any

      r' : Reply
      r' = if asked then write_lookup c found r else r

      nothing : (b : Bool) → exists c found ≡ false → (if b then write_lookup c found r else r) ≡ r
      nothing true e = write_lookup-unknown c found r e
      nothing false e = refl

      go :
          (known : Bool)
          → exists c found ≡ known
          → Kept q limit (if known then no_error else nx_domain) (
              (if r'.an == 0
                then authority_soa s.domain ttl
                    (if not (exists c found) then set_rcode nx_domain r' else r')
                else (r', ok tt)).0)
      go true e =
          let k' = written-Kept asked c found r k in
          rw e (
            if-Kept (r'.an == 0) no_error (authority_soa s.domain ttl r') (r', ok tt)
              (λ _. authority_soa-Kept q limit no_error r' k' s.domain ttl) (λ _. k'))
      go false e =
          let same : r' ≡ r = nothing asked e in
          let none_written : (r'.an == 0) ≡ true =
            ap (λ (x : Reply). x.an == 0) same ∙ ap (λ (n : ℕ). n == 0) fresh in
          rw (e, none_written)
            (rw same (
              authority_soa-Kept q limit nx_domain (set_rcode nx_domain r)
                (set_rcode-Kept q limit no_error r k nx_domain small) s.domain ttl))

  pub answer_name-Kept :
      (s : Server) (c : Cache) (name : Text) (r : Reply)
      → r.an ≡ 0
      → Kept q limit no_error r
      → Kept q limit
          (if not (q.qclass == class_in) && not (q.qclass == class_any)
            then refused
            else name_verdict s c name)
          ((answer_name s c q name r).0)
  unfolding answer_name
  answer_name-Kept s c name r fresh k =
      class (not (q.qclass == class_in) && not (q.qclass == class_any))
    where
      no : Kept q limit refused (set_rcode refused r)
      no = set_rcode-Kept q limit no_error r k refused small

      zone :
          (o : Option Text)
          → Kept q limit
              (elim o as (λ _. Rcode) [ some _ ↦ nx_domain | none ↦ refused ])
              ((elim o as (λ _. Reply × Result (Unit {0})) [
                | some z ↦ authority_soa z ttl (set_rcode nx_domain r)
                | none ↦ (set_rcode refused r, ok tt)
              ]).0)
      zone none = no
      zone (some z) =
          authority_soa-Kept q limit nx_domain (set_rcode nx_domain r)
            (set_rcode-Kept q limit no_error r k nx_domain small) z ttl

      inside :
          (b : Bool)
          → Kept q limit
              (if b
                then if exists c (look c name s.domain) then no_error else nx_domain
                else elim (Cnames.zone_of s.cnames name) as (λ _. Rcode) [
                  | some _ ↦ nx_domain
                  | none ↦ refused
                ])
              ((if b
                then service s c name q.qtype r
                else elim (Cnames.zone_of s.cnames name) as (λ _. Reply × Result (Unit {0})) [
                  | some z ↦ authority_soa z ttl (set_rcode nx_domain r)
                  | none ↦ (set_rcode refused r, ok tt)
                ]).0)
      inside true = service-Kept s c name q.qtype r fresh k
      inside false = zone (Cnames.zone_of s.cnames name)

      alias :
          (o : Option Text)
          → Kept q limit
              (elim o as (λ _. Rcode) [
                | some _ ↦ no_error
                | none ↦
                    if in_zone name s.domain
                    then if exists c (look c name s.domain) then no_error else nx_domain
                    else elim (Cnames.zone_of s.cnames name) [ some _ ↦ nx_domain | none ↦ refused ]
              ])
              ((elim o as (λ _. Reply × Result (Unit {0})) [
                | some target ↦ answer_cname target ttl r
                | none ↦
                    if in_zone name s.domain
                    then service s c name q.qtype r
                    else elim (Cnames.zone_of s.cnames name) [
                      | some z ↦ authority_soa z ttl (set_rcode nx_domain r)
                      | none ↦ (set_rcode refused r, ok tt)
                    ]
              ]).0)
      alias none = inside (in_zone name s.domain)
      alias (some target) = answer_cname-Kept q limit no_error r k target ttl

      class :
          (b : Bool)
          → Kept q limit (if b then refused else name_verdict s c name) (
              (if b
                then (set_rcode refused r, ok tt)
                else elim (Cnames.lookup s.cnames name) as (λ _. Reply × Result (Unit {0})) [
                  | some target ↦ answer_cname target ttl r
                  | none ↦
                      if in_zone name s.domain
                      then service s c name q.qtype r
                      else elim (Cnames.zone_of s.cnames name) [
                        | some z ↦ authority_soa z ttl (set_rcode nx_domain r)
                        | none ↦ (set_rcode refused r, ok tt)
                      ]
                ]).0)
      class true = no
      class false = alias (Cnames.lookup s.cnames name)
