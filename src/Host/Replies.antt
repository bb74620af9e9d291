-- ===== src/Host/Replies.antt =====
-- src/host.rs: each datagram that the server thread sends answers one that it received.
use hopdns.Base.{
  ℕ, List, [], ◌∷◌, ◌++◌, ◌≡◌, refl, sym, ap, ◌∙◌, subst, inl, inr, All, All-append, All-map,
  length, Option-cases, append_assoc, length-replicate,
}
use hopdns.Cache
use hopdns.Cache.{Cache}
use hopdns.Host.{System}
use hopdns.Host.Serve.{Message, drain, Round, Serving, begin, Sent, serve}
use hopdns.Host.Drained.{drain-append}
use hopdns.Host.Answers.{turn-stop, delivered-last}
use hopdns.Host.Turns.{delivered, fatal, Replied, turn-Went}
use hopdns.Server.{Server}

module _ (sys : System) where
  -- A datagram that was sent answers one that came in by then, over the messages delivered by then.
  pub record IsReply (server : Server) (rounds : List (Round sys)) (x : Sent sys) : Type 0 where
    pub before : List (Round sys)
    pub round : Round sys
    pub after : List (Round sys)
    pub buffer : List ℕ
    pub rounds_are : rounds ≡ before ++ round ∷ after
    pub buffer_size : length buffer ≡ 1232
    pub replied :
        Replied sys server (drain (delivered sys (before ++ round ∷ [])) Cache.new) round buffer x

  served-IsReply :
      (server : Server) (before rounds : List (Round sys)) (s : Serving sys)
      → s.cache ≡ drain (delivered sys before) Cache.new
      → length s.answer ≡ 1232
      → All (IsReply server (before ++ rounds)) (serve sys server rounds s).0
  unfolding serve
  served-IsReply server before [] s cache sized = tt
  served-IsReply server before (round ∷ rounds) s cache sized =
      elim (Option-cases (fatal sys round.received)) [
        | inr (e, ends) ↦ rw (turn-stop sys server round s e ends, serve) tt
        | inl goes ↦
            let w = turn-Went sys server round s goes in
            let now : drain round.waiting s.cache
                ≡ drain (delivered sys (before ++ round ∷ [])) Cache.new =
              ap (drain round.waiting) cache
              ∙ (sym (drain-append (delivered sys before) round.waiting Cache.new)
                  ∙ ap (λ (ms : List Message). drain ms Cache.new)
                      (sym (delivered-last sys before round))) in
            let all : (before ++ round ∷ []) ++ rounds ≡ before ++ round ∷ rounds =
              append_assoc before (round ∷ []) rounds in
            let here =
              All-map (Replied sys server (drain round.waiting s.cache) round s.answer)
                (IsReply server (before ++ round ∷ rounds)) w.out
                (λ x r. record {
                  before = before;
                  round = round;
                  after = rounds;
                  buffer = s.answer;
                  rounds_are = refl;
                  buffer_size = sized;
                  replied = subst (λ (c : Cache). Replied sys server c round s.answer x) now r;
                })
                w.replies in
            let later =
              served-IsReply server (before ++ round ∷ []) rounds w.after (w.cache_is ∙ now)
                (w.buffer_kept ∙ sized) in
            rw (w.turn_is, serve)
              (All-append (IsReply server (before ++ round ∷ rounds)) w.out
                (serve sys server rounds w.after).0 here
                (subst
                  (λ (rs : List (Round sys)).
                    All (IsReply server rs) (serve sys server rounds w.after).0)
                  all later))
      ]

  -- Each datagram that `serve` sends belongs to one of its rounds: it is what `handle` makes of
  -- the datagram received there, with the cache that the messages up to that round leave, drained
  -- in order into an empty one, and some buffer of 1232 bytes, and it goes to the address that
  -- came with that datagram.
  pub serve-IsReply :
      (server : Server) (rounds : List (Round sys))
      → All (IsReply server rounds) (serve sys server rounds (begin sys)).0
  unfolding begin drain Cache.new
  serve-IsReply server rounds =
      served-IsReply server [] rounds (begin sys) refl (length-replicate {A = ℕ} 1232 0)
