-- ===== src/Hopos/Cached.antt =====
-- src/bin/hopdns-hopos.rs: what the server task answers from, and the marker of the cache.
use hopdns.Base.{
  ℕ, ◌-◌, ◌^◌, ◌≤◌, ◌<◌, min, List, [], ◌∷◌, ◌++◌, some, ◌≡◌, refl, sym, ap, ◌∙◌, subst, arith, inl,
  inr, length, slice, take, le→leb, Option-cases, Bool-cases, append_assoc, length-replicate,
}
use hopdns.Cache
use hopdns.Cache.{Cache}
use hopdns.Host.{fine, fault}
use hopdns.Host.Drained.{drain-append}
use hopdns.Host.Serve.{Message, drain}
use hopdns.Hopos.{Resident}
use hopdns.Hopos.Serve.{
  apply, apply_all, counts_of, Round, asked, told, Serving, begin, Out, sends, respond, same_counts,
  show_counts, turn, serve,
}
use hopdns.Server.{Server, handle, limit_of}
use hopdns.Server.Buffer.{handle-length}
use hopdns.Server.Handle.{handle-IsAnswer, limit_of-bounds}
use hopdns.Wire.Query.{Query, query, parse_query}
use hopdns.Wire.Reply.Finish.{sent}
use hopdns.Wire.Reply.Kept.{IsAnswer}

-- The two ways to empty the channel are one.
apply_all-drain : (ms : List Message) (c : Cache) → apply_all ms c ≡ drain ms c
unfolding apply_all apply drain
apply_all-drain [] c = refl
apply_all-drain ((grant, u) ∷ ms) c = apply_all-drain ms _

module _ (sys : Resident) where
  -- The messages that were taken, in their order.
  abbrev pub taken : List (Round sys) → List Message
  taken [] = []
  taken (asked buf got ∷ rounds) = taken rounds
  taken (told first rest ∷ rounds) = (first ∷ rest) ++ taken rounds

  -- What a turn leaves: the cache with its messages, and the buffer as long as it was.
  record Left (s : Serving sys) (ms : List Message) (p : Serving sys × List (Out sys))
      : Type 0 where
    cache_is : p.0.cache ≡ drain ms s.cache
    buffer_kept : length p.0.answer ≡ length s.answer

  abbrev messages : Round sys → List Message
  messages (asked buf got) = []
  messages (told first rest) = first ∷ rest

  respond-Left :
      (server : Server) (msg : List ℕ) (from : sys.Address) (s : Serving sys)
      → Left s [] (respond sys server msg from s)
  unfolding respond drain
  respond-Left server msg from s = elim (Option-cases (handle server s.cache msg s.answer)) [
    | inl e ↦ rw (e, respond) (record { cache_is = refl; buffer_kept = refl })
    | inr (p, e) ↦
        rw (e, respond)
          (record { cache_is = refl; buffer_kept = handle-length server s.cache msg s.answer p e })
  ]

  show_counts-kept :
      (s : Serving sys)
      → ((show_counts sys s).0.cache ≡ s.cache) × ((show_counts sys s).0.answer ≡ s.answer)
  unfolding show_counts
  show_counts-kept s = elim (Bool-cases (same_counts sys (counts_of s.cache) s.shown)) [
    | inl same ↦ rw (same, show_counts) (refl, refl)
    | inr new ↦ rw (new, show_counts) (refl, refl)
  ]

  turn-Left :
      (server : Server) (round : Round sys) (s : Serving sys)
      → Left s (messages round) (turn sys server round s)
  unfolding turn drain apply apply_all
  turn-Left server (asked buf (fault _)) s = record { cache_is = refl; buffer_kept = refl }
  turn-Left server (asked buf (fine (n, from))) s = elim (Option-cases (slice buf 0 n)) [
    | inl e ↦ rw (e, turn) (record { cache_is = refl; buffer_kept = refl })
    | inr (msg, e) ↦ rw (e, turn) (respond-Left server msg from s)
  ]
  turn-Left server (told first rest) s =
      let (cache, answer) =
        show_counts-kept (record s { cache = apply_all rest (apply first s.cache) }) in
      record {
        cache_is = cache ∙ apply_all-drain (first ∷ rest) s.cache;
        buffer_kept = ap length answer;
      }

  taken-messages :
      (round : Round sys) (rounds : List (Round sys))
      → taken (round ∷ rounds) ≡ messages round ++ taken rounds
  taken-messages (asked buf got) rounds = refl
  taken-messages (told first rest) rounds = refl

  -- What the rounds leave, and what comes after them.
  record After (server : Server) (rounds : List (Round sys)) (s : Serving sys) : Type 0 where
    left : Left s (taken rounds) (serve sys server rounds s)
    later :
        (more : List (Round sys))
        → serve sys server (rounds ++ more) s ≡ (
          (serve sys server more ((serve sys server rounds s).0)).0,
          (serve sys server rounds s).1
              ++ (serve sys server more ((serve sys server rounds s).0)).1,
        )

  serve-After :
      (server : Server) (rounds : List (Round sys)) (s : Serving sys) → After server rounds s
  unfolding serve drain
  serve-After server [] s = record {
    left = record { cache_is = refl; buffer_kept = refl };
    later = λ more. refl;
  }
  serve-After server (round ∷ rounds) s =
      let t = turn-Left server round s in
      let s' = (turn sys server round s).0 in
      let a = serve-After server rounds s' in
      record {
        left = record {
          cache_is =
              a.left.cache_is
              ∙ (ap (drain (taken rounds)) t.cache_is
                  ∙ (sym (drain-append (messages round) (taken rounds) s.cache)
                      ∙ ap (λ (ms : List Message). drain ms s.cache)
                          (sym (taken-messages round rounds))));
          buffer_kept = a.left.buffer_kept ∙ t.buffer_kept;
        };
        later = λ more.
            ap (λ (p : Serving sys × List (Out sys)). (p.0, (turn sys server round s).1 ++ p.1))
              (a.later more)
            ∙ ap
                (λ (out : List (Out sys)).
                  ((serve sys server more ((serve sys server rounds s').0)).0, out))
                (sym (
                  append_assoc (turn sys server round s).1 (serve sys server rounds s').1
                    (serve sys server more ((serve sys server rounds s').0)).1));
      }

  slice_front : {A : Type 0} (xs : List A) (n : ℕ) → n ≤ length xs → slice xs 0 n ≡ some (take n xs)
  slice_front xs n h =
      let same : n - 0 ≡ n = omega arith in
      rw (le→leb 0 n (omega arith), le→leb n (length xs) h, same) refl

  turn-answered :
      (server : Server) (buf : List ℕ) (s : Serving sys) (n : ℕ) (from : sys.Address) (msg : List ℕ)
      (p : List ℕ × ℕ)
      → slice buf 0 n ≡ some msg
      → handle server s.cache msg s.answer ≡ some p
      → p.1 ≤ length (p.0)
      → turn sys server (asked buf (fine (n, from))) s
        ≡ (record s { answer = p.0 }, sends (sent p) from ∷ [])
  unfolding turn respond
  turn-answered server buf s n from msg p cut answered short =
      rw (cut, turn) (rw (answered, respond) (rw (slice_front (p.0) (p.1) short) refl))

  -- After any rounds of the server task, for a datagram that `parse_query` reads as `q`, with a
  -- flag word below 2^16, the task sends one datagram more, to the sender: what `handle` makes of
  -- it with the cache that all messages taken by then leave, applied in order to an empty one, and
  -- some buffer of 1232 bytes. It is an answer to `q` within its limit.
  pub serve-asked :
      (server : Server) (rounds : List (Round sys)) (buf : List ℕ) (n : ℕ) (from : sys.Address)
      (msg : List ℕ) (q : Query)
      → slice buf 0 n ≡ some msg
      → parse_query msg ≡ query q
      → q.flags < 2 ^ 16
      → (p : List ℕ × ℕ) × (buffer : List ℕ) × ((serve sys server
            (rounds ++ asked buf (fine (n, from)) ∷ [])
            (begin sys)).1
          ≡ (serve sys server rounds (begin sys)).1 ++ sends (sent p) from ∷ [])
        × (length buffer ≡ 1232)
        × (handle server (drain (taken rounds) Cache.new) msg buffer ≡ some p)
        × IsAnswer q (limit_of q.edns) p
  unfolding serve begin
  serve-asked server rounds buf n from msg q cut read small =
      let a = serve-After server rounds (begin sys) in
      let s : Serving sys = (serve sys server rounds (begin sys)).0 in
      let sized : length s.answer ≡ 1232 = a.left.buffer_kept ∙ length-replicate {A = ℕ} 1232 0 in
      let (p, answered, answer) =
        handle-IsAnswer server s.cache msg s.answer q read small (omega arith) in
      let whole : min (limit_of q.edns) (length s.answer) ≡ limit_of q.edns =
        omega (arith, limit_of-bounds q.edns) in
      let size : length (p.0) ≡ length s.answer =
        handle-length server s.cache msg s.answer p answered in
      let short : p.1 ≤ length (p.0) = omega (arith, answer.short, size) in
      let last = turn-answered server buf s n from msg p cut answered short in
      (
        p,
        s.answer,
        ap (λ (x : Serving sys × List (Out sys)). x.1) (a.later (asked buf (fine (n, from)) ∷ []))
            ∙ ap
                (λ (t : Serving sys × List (Out sys)).
                  (serve sys server rounds (begin sys)).1 ++ (t.1 ++ []))
                last,
        sized,
        subst (λ (c : Cache). handle server c msg s.answer ≡ some p) a.left.cache_is answered,
        subst (λ (l : ℕ). IsAnswer q l p) whole answer,
      )
