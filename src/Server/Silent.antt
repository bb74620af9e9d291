-- ===== src/Server/Silent.antt =====
-- src/server.rs: no answer of a server is answered.
use hopdns.Base.{
  ℕ, ◌^◌, ◌≤◌, ◌<◌, List, ◌++◌, none, some, ◌≡◌, refl, sym, ap, ◌∙◌, arith, inl, inr, subst, length,
  All, Option-cases,
}
use hopdns.Cache.{Cache}
use hopdns.Server.{Server, handle}
use hopdns.Server.Handle.{
  handle-IsAnswer, handle_answer, handle_bad, handle_response, head_flags_response,
}
use hopdns.Wire.{Rcode, be16, u16_bytes}
use hopdns.Wire.Bits.{head_flags-lt}
use hopdns.Wire.Query.{Bad, Parsed, query, bad, parse_query}
use hopdns.Wire.Query.Laws.{parse_query-bounds}
use hopdns.Wire.Query.Refused.{IsByte, be16-lt, Keeps, parse_query-Keeps, parse_query-short}
use hopdns.Wire.Reply.{head_flags}
use hopdns.Wire.Reply.Finish.{sent}
use hopdns.Wire.Reply.Shape.{header}
use hopdns.Wire.Words.{be16-append}

-- A bare header is dropped.
handle-bare :
    (s : Server) (c : Cache) (msg out : List ℕ) (id flags : ℕ) (rc : Rcode)
    → flags < 2 ^ 16
    → msg ≡ header id (head_flags flags rc) 0 0 0 0
    → handle s c msg out ≡ none
handle-bare s c msg out id flags rc small e =
    let fl = head_flags flags rc in
    let behind = u16_bytes 0 ++ (u16_bytes 0 ++ (u16_bytes 0 ++ u16_bytes 0)) in
    let read : be16 msg 2 ≡ some fl =
      ap (λ (b : List ℕ). be16 b 2) e
      ∙ be16-append (u16_bytes id) behind fl 2 refl (head_flags-lt flags rc small) in
    handle_response s c msg out fl read (head_flags_response flags rc small)

module _ (s s' : Server) (c c' : Cache) (msg out out' : List ℕ) (p : List ℕ × ℕ)
    (bytes : All IsByte msg) (long : 512 ≤ length out) (given : handle s c msg out ≡ some p) where
  same-sent : (p' : List ℕ × ℕ) → handle s c msg out ≡ some p' → p' ≡ p
  same-sent p' e = let both : some p' ≡ some p = sym e ∙ given in cc

  dropped : parse_query msg ≡ bad Bad.drop → ⊥
  unfolding handle
  dropped read = let e = rw (read, handle) at given in cc

  -- What `handle` sends for a datagram of bytes, into a buffer of at least 512, gets no answer
  -- when it comes in as a datagram, at any server with any cache and any buffer.
  pub handle-silent : handle s' c' (sent p) out' ≡ none
  handle-silent = elim (Option-cases (be16 msg 2)) [
    | inl short ↦ absurd (dropped (parse_query-short msg short))
    | inr (flags, read) ↦ go flags read (be16-lt msg 2 flags bytes read) (parse_query msg) refl
  ]
    where
      answered :
          (p' : List ℕ × ℕ)
          → p' ≡ p
          → handle s' c' (sent p') out' ≡ none
          → handle s' c' (sent p) out' ≡ none
      answered p' e h = subst (λ (x : List ℕ × ℕ). handle s' c' (sent x) out' ≡ none) e h

      go :
          (flags : ℕ)
          → be16 msg 2 ≡ some flags
          → flags < 2 ^ 16
          → (r : Parsed) → parse_query msg ≡ r
          → handle s' c' (sent p) out' ≡ none
      go flags read small (query q) is =
          let (_, _, flags_is, _) = parse_query-bounds msg q is in
          let same : flags ≡ q.flags =
            let both : some flags ≡ some q.flags = sym read ∙ flags_is in cc in
          let fits : q.flags < 2 ^ 16 = omega (arith, small, same) in
          let (p', answer, a) = handle-IsAnswer s c msg out q is fits long in
          answered p' (same-sent p' answer) (handle_answer s' c' q _ p' out' fits a)
      go flags read small (bad Bad.drop) is = absurd (dropped is)
      go flags read small (bad (Bad.reply id fl rc)) is =
          let same : fl ≡ flags = subst (Keeps flags) is (parse_query-Keeps msg flags read) in
          let (p', answer, bare) = handle_bad s c msg out id fl rc is (omega arith) in
          answered p' (same-sent p' answer)
            (handle-bare s' c' (sent p') out' id fl rc (omega (arith, small, same)) bare)
