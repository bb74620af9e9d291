-- ===== src/Host/Answers.antt =====
-- src/host.rs: what the server thread sends over its rounds, and what it ends with.
use hopdns.Base.{
  ℕ, ◌-◌, ◌^◌, ◌≤◌, ◌<◌, min, List, [], ◌∷◌, ◌++◌, Option, none, some, ◌≡◌, refl, sym, ap, ◌∙◌,
  subst, arith, inl, inr, All, if◌then◌else◌, length, slice, take, le→leb, Option-cases,
  append_assoc, append-nil, length-replicate,
}
use hopdns.Cache
use hopdns.Cache.{Cache}
use hopdns.Host.{
  Outcome, fine, fault, ErrorKind, would_block, timed_out, connection_refused, other_kind, System,
  io,
}
use hopdns.Host.Serve.{
  Message, drain, goes_on, Round, Serving, begin, Turn, on, stop, respond, receive, turn, serve,
}
use hopdns.Host.Drained.{drain-append}
use hopdns.Host.Turns.{delivered, delivered-append, fatal, GoesOn, first_fatal, turn-Went}
use hopdns.Server.{Server, handle, limit_of}
use hopdns.Server.Buffer.{handle-length}
use hopdns.Server.Handle.{handle-IsAnswer, limit_of-bounds}
use hopdns.Text.{codes}
use hopdns.Wire.Query.{Query, query, parse_query}
use hopdns.Wire.Reply.Finish.{sent}
use hopdns.Wire.Reply.Kept.{IsAnswer}

module _ (sys : System) where
  pub turn-stop :
      (server : Server) (round : Round sys) (s : Serving sys) (e : sys.IoError)
      → fatal sys round.received ≡ some e
      → turn sys server round s ≡ stop (io (codes "udp recv") e)
  unfolding turn receive goes_on
  turn-stop server round s e h = go round.received h
    where
      s' : Serving sys
      s' = record s { cache = drain round.waiting s.cache }

      kind :
          (k : ErrorKind) (x : sys.IoError)
          → (elim k as (λ _. Option sys.IoError) [
            | would_block ↦ none
            | timed_out ↦ none
            | connection_refused ↦ none
            | other_kind ↦ some x
          ])
            ≡ some e
          → (if◌then◌else◌ {A = Turn sys} (goes_on k) (on s' []) (stop (io (codes "udp recv") x)))
            ≡ stop (io (codes "udp recv") e)
      kind would_block x p = absurd cc
      kind timed_out x p = absurd cc
      kind connection_refused x p = absurd cc
      kind other_kind x p = cc

      go :
          (got : Outcome sys.IoError (ℕ × sys.Address))
          → fatal sys got ≡ some e
          → (elim got as (λ _. Turn sys) [
            | fault x ↦ if goes_on (sys.kind x) then on s' [] else stop (io (codes "udp recv") x)
            | fine (n, from) ↦ elim (slice round.query 0 n) [
              | none ↦ on s' []
              | some msg ↦ respond sys server msg from s'
            ]
          ])
            ≡ stop (io (codes "udp recv") e)
      go (fine _) p = cc
      go (fault x) p = kind (sys.kind x) x p

  -- `serve` ends with the first receive error that is neither would-block, timed-out nor
  -- connection-refused, and without one it goes on, whatever the messages, the datagrams and its
  -- state are.
  pub serve-first_fatal :
      (server : Server) (rounds : List (Round sys)) (s : Serving sys)
      → (serve sys server rounds s).1 ≡ first_fatal sys rounds
  unfolding serve
  serve-first_fatal server [] s = refl
  serve-first_fatal server (round ∷ rounds) s = elim (Option-cases (fatal sys round.received)) [
    | inl goes ↦
        let w = turn-Went sys server round s goes in
        rw (goes, first_fatal) (rw (w.turn_is, serve) (serve-first_fatal server rounds w.after))
    | inr (e, ends) ↦ rw (ends, first_fatal) (rw (turn-stop server round s e ends, serve) refl)
  ]

  -- What the rounds so far leave, for those that come.
  record Served (server : Server) (before : List (Round sys)) (s : Serving sys) : Type 0 where
    after : Serving sys
    later :
        (rounds : List (Round sys))
        → serve sys server (before ++ rounds) s ≡ (
          (serve sys server before s).0 ++ (serve sys server rounds after).0,
          (serve sys server rounds after).1,
        )
    cache_is : after.cache ≡ drain (delivered sys before) s.cache
    buffer_kept : length after.answer ≡ length s.answer

  serve-Served :
      (server : Server) (before : List (Round sys)) (s : Serving sys)
      → All (GoesOn sys) before
      → Served server before s
  unfolding serve drain
  serve-Served server [] s goes = record {
    after = s;
    later = λ rounds. refl;
    cache_is = refl;
    buffer_kept = refl;
  }
  serve-Served server (round ∷ before) s goes =
      let w = turn-Went sys server round s (goes.0) in
      let v = serve-Served server before w.after (goes.1) in
      record {
        after = v.after;
        later = λ rounds.
            rw (w.turn_is, serve)
              (rw (v.later rounds) (
                rw
                  (append_assoc w.out (serve sys server before w.after).0
                    (serve sys server rounds v.after).0)
                  refl));
        cache_is =
            v.cache_is
            ∙ (ap (drain (delivered sys before)) w.cache_is
                ∙ sym (drain-append round.waiting (delivered sys before) s.cache));
        buffer_kept = v.buffer_kept ∙ w.buffer_kept;
      }

  slice_front : {A : Type 0} (xs : List A) (n : ℕ) → n ≤ length xs → slice xs 0 n ≡ some (take n xs)
  slice_front xs n h =
      let same : n - 0 ≡ n = omega arith in
      rw (le→leb 0 n (omega arith), le→leb n (length xs) h, same) refl

  turn-answered :
      (server : Server) (round : Round sys) (s : Serving sys) (n : ℕ) (from : sys.Address)
      (msg : List ℕ) (p : List ℕ × ℕ)
      → round.received ≡ fine (n, from)
      → slice round.query 0 n ≡ some msg
      → handle server (drain round.waiting s.cache) msg s.answer ≡ some p
      → p.1 ≤ length (p.0)
      → turn sys server round s
        ≡ on (record { cache = drain round.waiting s.cache; answer = p.0 }) ((sent p, from) ∷ [])
  unfolding turn receive respond
  turn-answered server round s n from msg p got cut answered short =
      rw (got, receive)
        (rw (cut, receive) (rw (answered, respond) (rw (slice_front (p.0) (p.1) short) refl)))

  pub delivered-last :
      (before : List (Round sys)) (round : Round sys)
      → delivered sys (before ++ round ∷ []) ≡ delivered sys before ++ round.waiting
  delivered-last before round =
      delivered-append sys before (round ∷ [])
      ∙ ap (λ (ms : List Message). delivered sys before ++ ms) (append-nil round.waiting)

  -- After rounds without a fatal error, for a datagram that `parse_query` reads as `q`, with a
  -- flag word below 2^16, `serve` sends one datagram more, to the sender: what `handle` makes of
  -- it with the cache that all messages delivered by then leave, drained in order into an empty
  -- one, and some buffer of 1232 bytes. It is an answer to `q` within its limit, and the loop goes
  -- on.
  pub serve-query :
      (server : Server) (before : List (Round sys)) (round : Round sys) (n : ℕ) (from : sys.Address)
      (msg : List ℕ) (q : Query)
      → All (GoesOn sys) before
      → round.received ≡ fine (n, from)
      → slice round.query 0 n ≡ some msg
      → parse_query msg ≡ query q
      → q.flags < 2 ^ 16
      → (p : List ℕ × ℕ) × (buffer : List ℕ) × (serve sys server (before ++ round ∷ []) (begin sys)
          ≡ ((serve sys server before (begin sys)).0 ++ (sent p, from) ∷ [], none))
        × (length buffer ≡ 1232)
        × (handle server (drain (delivered sys (before ++ round ∷ [])) Cache.new) msg buffer
            ≡ some p)
        × IsAnswer q (limit_of q.edns) p
  unfolding serve begin
  serve-query server before round n from msg q goes got cut read small =
      let v = serve-Served server before (begin sys) goes in
      let s : Serving sys = v.after in
      let sized : length s.answer ≡ 1232 = v.buffer_kept ∙ length-replicate {A = ℕ} 1232 0 in
      let c : Cache = drain round.waiting s.cache in
      let (p, answered, a) = handle-IsAnswer server c msg s.answer q read small (omega arith) in
      let whole : min (limit_of q.edns) (length s.answer) ≡ limit_of q.edns =
        omega (arith, limit_of-bounds q.edns) in
      let same : c ≡ drain (delivered sys (before ++ round ∷ [])) Cache.new =
        ap (drain round.waiting) v.cache_is
        ∙ (sym (drain-append (delivered sys before) round.waiting Cache.new)
            ∙ ap (λ (ms : List Message). drain ms Cache.new) (sym (delivered-last before round))) in
      (
        p,
        s.answer,
        v.later (round ∷ [])
            ∙ rw
                (
                  turn-answered server round s n from msg p got cut answered
                      (omega (arith, a.short, handle-length server c msg s.answer p answered)),
                  serve,
                )
                refl,
        sized,
        subst (λ (c' : Cache). handle server c' msg s.answer ≡ some p) same answered,
        subst (λ (l : ℕ). IsAnswer q l p) whole a,
      )
