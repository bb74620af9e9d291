-- ===== src/Server/Verdict.antt =====
-- src/server.rs: the code of every answer, as a decision on the name, the CNAMEs and the cache.
use hopdns.Base.{
  ℕ, ◌+◌, ◌^◌, ◌≤◌, ◌<◌, min, not, ◌&&◌, List, Option, none, some, ◌≡◌, refl, ◌∙◌, ◌⊎◌, inl, inr,
  arith, length, ◌==◌, if◌then◌else◌,
}
use hopdns.Cache.{Cache}
use hopdns.Errors.{Error, Result, ok, err}
use hopdns.Server.{Server, answer_name, answer, complete, handle_query, handle, limit_of}
use hopdns.Server.Handle.{limit_of-bounds, reserve-le}
use hopdns.Text.{Text}
use hopdns.Wire.{Rcode, no_error, serv_fail, refused, class_in, class_any}
use hopdns.Wire.Names.{name_text}
use hopdns.Wire.Query.{Query, query, parse_query}
use hopdns.Wire.Query.Laws.{parse_query-bounds}
use hopdns.Wire.Reply.{Reply, reserve, set_rcode, start, finish}
use hopdns.Wire.Reply.Kept.{Kept, IsAnswer, finish-IsAnswer_code, set_rcode-Kept, start-Kept}
use hopdns.Server.Codes.{name_verdict, verdict, answer_name-Kept}

module _ (q : Query) (limit : ℕ) (small : q.flags < 2 ^ 16) where
  answer-Kept :
      (s : Server) (c : Cache) (r : Reply)
      → r.an ≡ 0
      → Kept q limit no_error r
      → Kept q limit (verdict s c q) ((answer s c q r).0)
  unfolding answer
  answer-Kept s c r fresh k = go (name_text q.qname)
    where
      go :
          (o : Option Text)
          → Kept q limit
              (elim o as (λ _. Rcode) [
                | none ↦ refused
                | some name ↦
                    if not (q.qclass == class_in) && not (q.qclass == class_any)
                    then refused
                    else name_verdict s c name
              ])
              ((elim o as (λ _. Reply × Result (Unit {0})) [
                | none ↦ (set_rcode refused r, ok tt)
                | some name ↦ answer_name s c q name r
              ]).0)
      go none = set_rcode-Kept q limit no_error r k refused small
      go (some name) = answer_name-Kept q limit small s c name r fresh k

  completed-Kept :
      (rc : Rcode) (p : Reply × Result (Unit {0}))
      → Kept q limit rc (p.0)
      → (rc' : Rcode) × Kept q limit rc'
          (elim (p.1) [ ok _ ↦ p.0 | err _ ↦ set_rcode serv_fail (p.0) ])
        × (((p.1 ≡ ok tt) × (rc' ≡ rc)) ⊎ ((e : Error) × (p.1 ≡ err e) × (rc' ≡ serv_fail)))
  completed-Kept rc (r', ok tt) k = (rc, k, inl (refl, refl))
  completed-Kept rc (r', err e) k =
      (serv_fail, set_rcode-Kept q limit rc r' k serv_fail small, inr (e, refl, refl))

-- For a query that parses, with flags of 16 bits, and a buffer of 512 bytes or more, `handle`
-- gives an answer with one of two codes. Where `answer` succeeds it is the verdict: REFUSED for a
-- name that does not read or a class other than IN and ANY; no error for an alias and for a name
-- under the domain that the cache knows; NXDOMAIN for another name under the domain or under the
-- zone of an alias; REFUSED for the rest. Where `answer` errs it is SERVFAIL.
pub handle-verdict :
    (s : Server) (c : Cache) (msg out : List ℕ) (q : Query)
    → parse_query msg ≡ query q
    → q.flags < 2 ^ 16
    → 512 ≤ length out
    → (p : List ℕ × ℕ) × (r : Reply) × (handle s c msg out ≡ some p)
      × (start out q (limit_of q.edns) ≡ ok r)
      × (a : IsAnswer q (min (limit_of q.edns) (length out)) p) × ((((answer s c q r).1 ≡ ok tt)
            × (a.rcode ≡ verdict s c q))
          ⊎ ((e : Error) × ((answer s c q r).1 ≡ err e) × (a.rcode ≡ serv_fail)))
unfolding handle handle_query complete
handle-verdict s c msg out q read small long =
    let limit : ℕ = min (limit_of q.edns) (length out) in
    let (size, _, _, _) = parse_query-bounds msg q read in
    let fits : 12 + length q.question + reserve q.edns ≤ limit =
      omega (arith, limit_of-bounds q.edns, reserve-le q.edns) in
    let (r, began, k, fresh) = start-Kept out q (limit_of q.edns) fits in
    let (rc, k', codes) =
      completed-Kept q limit small (verdict s c q) (answer s c q r)
        (answer-Kept q limit small s c r fresh k) in
    let (a, same) = finish-IsAnswer_code q limit rc _ k' in
    (
      finish (elim ((answer s c q r).1) [
        | ok _ ↦ (answer s c q r).0
        | err _ ↦ set_rcode serv_fail ((answer s c q r).0)
      ]),
      r,
      rw (read, handle) (rw (began, handle_query) refl),
      began,
      a,
      elim codes [
        | inl (done, kept) ↦ inl (done, same ∙ kept)
        | inr (e, failed, kept) ↦ inr (e, failed, same ∙ kept)
      ],
    )
