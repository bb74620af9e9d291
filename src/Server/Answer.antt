-- ===== src/Server/Answer.antt =====
-- src/server.rs: what the whole of `answer` keeps, and the answer that `handle` sends.
use hopdns.Base.{
  ℕ, ◌+◌, ◌^◌, ◌≤◌, ◌<◌, min, Bool, true, false, not, ◌&&◌, ◌||◌, List, [], ◌∷◌, ◌++◌, Option, none,
  some, ◌≡◌, refl, ap, length, ltb, ◌==◌, if◌then◌else◌, flatten,
}
use hopdns.Cache
use hopdns.Cache.{Cache, Ip}
use hopdns.Cnames
use hopdns.Errors.{Result, ok, err}
use hopdns.Text.{Text}
use hopdns.Wire.{
  Rcode, no_error, serv_fail, nx_domain, refused, class_in, class_any, rtype_a, rtype_any,
}
use hopdns.Wire.Names.{name_text}
use hopdns.Wire.Query.{Query}
use hopdns.Wire.Reply.{
  Reply, reserve, set_rcode, answer_a, answer_cname, authority_soa, answers, finish,
}
use hopdns.Wire.Reply.Kept.{
  Kept, IsAnswer, finish-IsAnswer, answer_a-Kept, set_rcode-Kept, answer_cname-Kept,
  authority_soa-Kept, start-Kept,
}
use hopdns.Server.{
  Server, Lookup, cluster, merged, apex, ttl, max_answers, write_cluster, write_unseen,
  write_merged, write_lookup, look, exists, negative, service, answer_name, answer, complete,
  handle_query, limit_of,
}
use hopdns.Server.Zone.{in_zone}

-- What each method of a reply keeps.
pub record Methods (P : Reply → Type 0) : Type 0 where
  pub answer_a_keeps : (r : Reply) → P r → (ip ttl : ℕ) → P ((answer_a ip ttl r).0)
  pub set_rcode_keeps : (r : Reply) → P r → (rc : Rcode) → P (set_rcode rc r)
  pub answer_cname_keeps :
      (r : Reply) → P r → (target : Text) (ttl : ℕ) → P ((answer_cname target ttl r).0)
  pub authority_soa_keeps :
      (r : Reply) → P r → (zone : Text) (ttl : ℕ) → P ((authority_soa zone ttl r).0)

-- The loops over addresses keep what `answer_a` keeps.
module _ (P : Reply → Type 0)
    (writes : (r : Reply) → P r → (ip ttl : ℕ) → P ((answer_a ip ttl r).0)) where
  -- An answer that stops at the first address that has no room.
  written-kept :
      (p : Reply × Result (Unit {0})) (f : Reply → Reply)
      → P (p.0)
      → ((r' : Reply) → P r' → P (f r'))
      → P (elim (p.1) [ ok _ ↦ f (p.0) | err _ ↦ p.0 ])
  written-kept (r', ok x) f k step = step r' k
  written-kept (r', err e) f k step = k

  write_cluster-kept : (ips : List Ip) (r : Reply) → P r → P (write_cluster ips r)
  unfolding write_cluster
  write_cluster-kept [] r k = k
  write_cluster-kept (ip ∷ ips) r k =
      written-kept (answer_a ip ttl r) (write_cluster ips) (writes r k ip ttl)
        (write_cluster-kept ips)

  write_unseen-kept : (ips seen : List Ip) (r : Reply) → P r → P (write_unseen ips seen r)
  unfolding write_unseen
  write_unseen-kept [] seen r k = k
  write_unseen-kept (ip ∷ ips) seen r k =
      elim (Cache.contains seen ip)
        as (λ known. P (elim known [
          | true ↦ write_unseen ips seen r
          | false ↦ elim (ltb (length seen) max_answers) [
            | false ↦ r
            | true ↦
                let (r', written) = answer_a ip ttl r in
                elim written [ ok _ ↦ write_unseen ips (seen ++ ip ∷ []) r' | err _ ↦ r' ]
          ]
        ])) [
          | true ↦ write_unseen-kept ips seen r k
          | false ↦
              elim (ltb (length seen) max_answers)
                as (λ free. P (elim free [
                  | false ↦ r
                  | true ↦
                      let (r', written) = answer_a ip ttl r in
                      elim written [ ok _ ↦ write_unseen ips (seen ++ ip ∷ []) r' | err _ ↦ r' ]
                ])) [
                  | false ↦ k
                  | true ↦
                      written-kept (answer_a ip ttl r) (write_unseen ips (seen ++ ip ∷ []))
                        (writes r k ip ttl) (write_unseen-kept ips (seen ++ ip ∷ []))
                ]
        ]

  pub write_lookup-kept : (c : Cache) (l : Lookup) (r : Reply) → P r → P (write_lookup c l r)
  unfolding write_lookup write_merged
  write_lookup-kept c apex r k = k
  write_lookup-kept c (cluster (some ips)) r k = write_cluster-kept ips r k
  write_lookup-kept c (cluster none) r k = k
  write_lookup-kept c (merged job) r k = write_unseen-kept (flatten (Cache.merged c job)) [] r k

-- The whole of `answer` keeps it.
module _ (P : Reply → Type 0) (keeps : Methods P) (q : Query) where
  if-kept : (b : Bool) (r r' : Reply) → P r → P r' → P (if b then r else r')
  if-kept true r r' k k' = k
  if-kept false r r' k k' = k'

  negative-kept : (known : Bool) (domain : Text) (r : Reply) → P r → P ((negative known domain r).0)
  unfolding negative
  negative-kept known domain r k =
      keeps.authority_soa_keeps (if not known then set_rcode nx_domain r else r)
        (if-kept (not known) (set_rcode nx_domain r) r (keeps.set_rcode_keeps r k nx_domain) k)
        domain ttl

  first_if-kept :
      (b : Bool) (p p' : Reply × Result (Unit {0}))
      → P (p.0)
      → P (p'.0)
      → P ((if b then p else p').0)
  first_if-kept true p p' k k' = k
  first_if-kept false p p' k k' = k'

  service-kept :
      (s : Server) (c : Cache) (name : Text) (qtype : ℕ) (r : Reply)
      → P r
      → P ((service s c name qtype r).0)
  unfolding service
  service-kept s c name qtype r k =
      let found = look c name s.domain in
      let asked : Bool = qtype == rtype_a || qtype == rtype_any in
      let r' : Reply = if asked then write_lookup c found r else r in
      let k' : P r' =
        if-kept asked (write_lookup c found r) r
          (write_lookup-kept P keeps.answer_a_keeps c found r k) k in
      first_if-kept (answers r' == 0) (negative (exists c found) s.domain r') (r', ok tt)
        (negative-kept (exists c found) s.domain r' k') k'

  found-kept :
      {A : Type 0} (o : Option A) (f : A → Reply × Result (Unit {0}))
      (p : Reply × Result (Unit {0}))
      → ((a : A) → P ((f a).0))
      → P (p.0)
      → P ((elim o as (λ _. Reply × Result (Unit {0})) [ some a ↦ f a | none ↦ p ]).0)
  found-kept (some a) f p k k' = k a
  found-kept none f p k k' = k'

  answer_name-kept :
      (s : Server) (c : Cache) (name : Text) (r : Reply) → P r → P ((answer_name s c q name r).0)
  unfolding answer_name
  answer_name-kept s c name r k =
      let no = keeps.set_rcode_keeps r k refused in
      let unknown = keeps.set_rcode_keeps r k nx_domain in
      first_if-kept (not (q.qclass == class_in) && not (q.qclass == class_any))
        (set_rcode refused r, ok tt) _ no
        (found-kept (Cnames.lookup s.cnames name) (λ target. answer_cname target ttl r) _
          (λ target. keeps.answer_cname_keeps r k target ttl)
          (first_if-kept (in_zone name s.domain) (service s c name q.qtype r) _
            (service-kept s c name q.qtype r k)
            (found-kept (Cnames.zone_of s.cnames name)
              (λ zone. authority_soa zone ttl (set_rcode nx_domain r)) (set_rcode refused r, ok tt)
              (λ zone. keeps.authority_soa_keeps (set_rcode nx_domain r) unknown zone ttl) no)))

  answer-kept : (s : Server) (c : Cache) (r : Reply) → P r → P ((answer s c q r).0)
  unfolding answer
  answer-kept s c r k =
      found-kept (name_text q.qname) (λ name. answer_name s c q name r) (set_rcode refused r, ok tt)
        (λ name. answer_name-kept s c name r k) (keeps.set_rcode_keeps r k refused)

  completed-kept :
      (p : Reply × Result (Unit {0}))
      → P (p.0)
      → P (elim (p.1) [ ok _ ↦ p.0 | err _ ↦ set_rcode serv_fail (p.0) ])
  completed-kept (r', ok x) k = k
  completed-kept (r', err e) k = keeps.set_rcode_keeps r' k serv_fail

  pub complete-kept :
      (s : Server) (c : Cache) (r : Reply)
      → P r
      → (r' : Reply) × P r' × (complete s c q r ≡ finish r')
  unfolding complete
  complete-kept s c r k = (_, completed-kept (answer s c q r) (answer-kept s c r k), refl)

-- An answer to `q` under some code.
abbrev Coded : Query → ℕ → Reply → Type 0
Coded q limit r = (rc : Rcode) × Kept q limit rc r

Coded-Methods : (q : Query) (limit : ℕ) → q.flags < 2 ^ 16 → Methods (Coded q limit)
Coded-Methods q limit small = record {
  answer_a_keeps = λ r k ip ttl. (k.0, answer_a-Kept q limit (k.0) r (k.1) ip ttl);
  set_rcode_keeps = λ r k rc. (rc, set_rcode-Kept q limit (k.0) r (k.1) rc small);
  answer_cname_keeps = λ r k target ttl. (k.0, answer_cname-Kept q limit (k.0) r (k.1) target ttl);
  authority_soa_keeps = λ r k zone ttl. (k.0, authority_soa-Kept q limit (k.0) r (k.1) zone ttl);
}

pub handle_query-IsAnswer :
    (s : Server) (c : Cache) (q : Query) (out : List ℕ)
    → q.flags < 2 ^ 16
    → 12 + length q.question + reserve q.edns ≤ min (limit_of q.edns) (length out)
    → (p : List ℕ × ℕ) × (handle_query s c q out ≡ some p)
      × IsAnswer q (min (limit_of q.edns) (length out)) p
unfolding handle_query
handle_query-IsAnswer s c q out small fits =
    let limit : ℕ = min (limit_of q.edns) (length out) in
    let (r, began, k, _) = start-Kept out q (limit_of q.edns) fits in
    let (r', k', same) =
      complete-kept (Coded q limit) (Coded-Methods q limit small) q s c r (no_error, k) in
    (finish r', rw (began, handle_query) (ap some same), finish-IsAnswer q limit (k'.0) r' (k'.1))
