-- ===== src/Server/Buffer.antt =====
-- src/server.rs: an answer leaves the buffer as long as it was, so that the next one has the same room.
use hopdns.Base.{ℕ, List, Option, none, some, ◌≡◌, refl, ap, ◌∙◌, length, subst}
use hopdns.Cache.{Cache}
use hopdns.Errors.{Result, ok, err}
use hopdns.Server.{Server, handle, handle_query, complete, limit_of}
use hopdns.Server.Answer.{Methods, complete-kept}
use hopdns.Wire.{udp_max}
use hopdns.Wire.Query.{Query, Bad, Parsed, query, bad, parse_query}
use hopdns.Wire.Reply.{Reply, start, bare, finish}
use hopdns.Wire.Reply.Sizes.{
  answer_a-Keeps, answer_cname-Keeps, authority_soa-Keeps, set_rcode-SameSize, bare-length,
  start-length, finish-length,
}

-- The buffer has this length.
abbrev Sized : ℕ → Reply → Type 0
Sized n r = length r.buf ≡ n

Sized-Methods : (n : ℕ) → Methods (Sized n)
Sized-Methods n = record {
  answer_a_keeps = λ r k ip ttl. (answer_a-Keeps ip ttl).same_size r ∙ k;
  set_rcode_keeps = λ r k rc. set_rcode-SameSize rc r ∙ k;
  answer_cname_keeps = λ r k target ttl. (answer_cname-Keeps target ttl).same_size r ∙ k;
  authority_soa_keeps = λ r k zone ttl. (authority_soa-Keeps zone ttl).same_size r ∙ k;
}

complete-length :
    (s : Server) (c : Cache) (q : Query) (r : Reply) (n : ℕ)
    → length r.buf ≡ n
    → length ((complete s c q r).0) ≡ n
complete-length s c q r n k =
    let (r', k', same) = complete-kept (Sized n) (Sized-Methods n) q s c r k in
    ap (λ (p : List ℕ × ℕ). length (p.0)) same ∙ (finish-length r' ∙ k')

handle_query-length :
    (s : Server) (c : Cache) (q : Query) (out : List ℕ) (p : List ℕ × ℕ)
    → handle_query s c q out ≡ some p
    → length (p.0) ≡ length out
unfolding handle_query
handle_query-length s c q out p h = go (start out q (limit_of q.edns)) refl h
  where
    go :
        (x : Result Reply)
        → start out q (limit_of q.edns) ≡ x
        → (elim x as (λ _. Option (List ℕ × ℕ)) [ ok r ↦ some (complete s c q r) | err _ ↦ none ])
          ≡ some p
        → length (p.0) ≡ length out
    go (ok r) begun e =
        let same : complete s c q r ≡ p = cc in
        subst (λ (p : List ℕ × ℕ). length (p.0) ≡ length out) same
          (complete-length s c q r (length out) (start-length out q (limit_of q.edns) r begun))
    go (err x) begun e = cc

-- The buffer that `handle` gives back is as long as the one it was given.
pub handle-length :
    (s : Server) (c : Cache) (msg out : List ℕ) (p : List ℕ × ℕ)
    → handle s c msg out ≡ some p
    → length (p.0) ≡ length out
unfolding handle
handle-length s c msg out p h = go (parse_query msg) h
  where
    replied :
        (x : Result Reply)
        → ((r : Reply) → x ≡ ok r → length r.buf ≡ length out)
        → (elim x as (λ _. Option (List ℕ × ℕ)) [ ok r ↦ some (finish r) | err _ ↦ none ]) ≡ some p
        → length (p.0) ≡ length out
    replied (ok r) kept e =
        let same : finish r ≡ p = cc in
        subst (λ (p : List ℕ × ℕ). length (p.0) ≡ length out) same (finish-length r ∙ kept r refl)
    replied (err x) kept e = cc

    go :
        (x : Parsed)
        → (elim x as (λ _. Option (List ℕ × ℕ)) [
          | query q ↦ handle_query s c q out
          | bad Bad.drop ↦ none
          | bad (Bad.reply id flags rcode) ↦ elim (bare out id flags rcode udp_max) [
            | ok r ↦ some (finish r)
            | err _ ↦ none
          ]
        ])
          ≡ some p
        → length (p.0) ≡ length out
    go (query q) e = handle_query-length s c q out p e
    go (bad Bad.drop) e = cc
    go (bad (Bad.reply id flags rcode)) e =
        replied (bare out id flags rcode udp_max)
          (λ r begun. bare-length out id flags rcode udp_max r begun) e
