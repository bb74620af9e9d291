-- ===== src/Host/Turns.antt =====
-- src/host.rs: one turn of the server thread: when it goes on, and what it leaves.
use hopdns.Base.{
  ℕ, List, [], ◌∷◌, ◌++◌, Option, none, some, ◌≡◌, refl, sym, ap, ◌∙◌, inl, inr, All, if◌then◌else◌,
  length, slice, Option-cases, append_assoc,
}
use hopdns.Cache.{Cache}
use hopdns.Host.{
  Outcome, fine, fault, ErrorKind, would_block, timed_out, connection_refused, other_kind, System,
  HostError, io,
}
use hopdns.Host.Serve.{
  Message, drain, goes_on, Round, Serving, Sent, Turn, on, stop, respond, receive, turn,
}
use hopdns.Server.{Server, handle}
use hopdns.Server.Buffer.{handle-length}
use hopdns.Text.{codes}

module _ (sys : System) where
  -- The messages that were delivered, in their order.
  abbrev pub delivered : List (Round sys) → List Message
  delivered [] = []
  delivered (round ∷ rounds) = round.waiting ++ delivered rounds

  pub delivered-append :
      (before after : List (Round sys))
      → delivered (before ++ after) ≡ delivered before ++ delivered after
  delivered-append [] after = refl
  delivered-append (round ∷ before) after =
      ap (λ (ms : List Message). round.waiting ++ ms) (delivered-append before after)
      ∙ sym (append_assoc round.waiting (delivered before) (delivered after))

  -- The error of a receive that ends the loop.
  abbrev pub fatal : Outcome sys.IoError (ℕ × sys.Address) → Option sys.IoError
  fatal (fine _) = none
  fatal (fault e) = elim (sys.kind e) [
    | would_block ↦ none
    | timed_out ↦ none
    | connection_refused ↦ none
    | other_kind ↦ some e
  ]

  abbrev pub GoesOn : Round sys → Type 0
  GoesOn round = fatal round.received ≡ none

  abbrev pub first_fatal : List (Round sys) → Option (HostError sys)
  first_fatal [] = none
  first_fatal (round ∷ rounds) = elim (fatal round.received) [
    | some e ↦ some (io (codes "udp recv") e)
    | none ↦ first_fatal rounds
  ]

  -- What is sent is the answer that `handle` gives, with this cache and buffer, to the datagram that
  -- was received, and goes to where that came from.
  pub record Replied (server : Server) (c : Cache) (round : Round sys) (buffer : List ℕ)
      (x : Sent sys) : Type 0 where
    pub size : ℕ
    pub msg : List ℕ
    pub reply : List ℕ × ℕ
    pub received_is : round.received ≡ fine (size, x.1)
    pub msg_is : slice round.query 0 size ≡ some msg
    pub reply_is : handle server c msg buffer ≡ some reply
    pub bytes_are : slice (reply.0) 0 (reply.1) ≡ some (x.0)

  -- A turn that goes on from a state with this cache.
  pub record Went (server : Server) (c : Cache) (round : Round sys) (s : Serving sys) (t : Turn sys)
      : Type 0 where
    pub after : Serving sys
    pub out : List (Sent sys)
    pub turn_is : t ≡ on after out
    pub cache_is : after.cache ≡ c
    pub buffer_kept : length after.answer ≡ length s.answer
    pub replies : All (Replied server c round s.answer) out

  respond-Went :
      (server : Server) (round : Round sys) (n : ℕ) (msg : List ℕ) (from : sys.Address)
      (s : Serving sys)
      → round.received ≡ fine (n, from)
      → slice round.query 0 n ≡ some msg
      → Went server s.cache round s (respond sys server msg from s)
  unfolding respond
  respond-Went server round n msg from s got cut =
      elim (Option-cases (handle server s.cache msg s.answer)) [
        | inl e ↦
            rw (e, respond)
              (record {
                after = s;
                out = [];
                turn_is = refl;
                cache_is = refl;
                buffer_kept = refl;
                replies = tt;
              })
        | inr (p, e) ↦
            rw (e, respond)
              (record {
                after = record s { answer = p.0 };
                out = _;
                turn_is = refl;
                cache_is = refl;
                buffer_kept = handle-length server s.cache msg s.answer p e;
                replies = sent_replies p e (slice (p.0) 0 (p.1)) refl;
              })
      ]
    where
      sent_replies :
          (p : List ℕ × ℕ)
          → handle server s.cache msg s.answer ≡ some p
          → (o : Option (List ℕ)) → slice (p.0) 0 (p.1) ≡ o
          → All
              (Replied server s.cache round s.answer)
              (elim o as (λ _. List (Sent sys)) [ none ↦ [] | some out ↦ (out, from) ∷ [] ])
      sent_replies p e none h = tt
      sent_replies p e (some out) h = (
        record {
          size = n;
          msg = msg;
          reply = p;
          received_is = got;
          msg_is = cut;
          reply_is = e;
          bytes_are = h;
        },
        tt,
      )

  receive-Went :
      (server : Server) (round : Round sys) (s : Serving sys)
      → GoesOn round
      → Went server s.cache round s (receive sys server round s)
  unfolding receive goes_on
  receive-Went server round s goes = go round.received refl goes
    where
      stay : (s : Serving sys) → Went server s.cache round s (on s [])
      stay s = record {
        after = s;
        out = [];
        turn_is = refl;
        cache_is = refl;
        buffer_kept = refl;
        replies = tt;
      }

      message :
          (o : Option (List ℕ)) (n : ℕ) (from : sys.Address)
          → round.received ≡ fine (n, from)
          → slice round.query 0 n ≡ o
          → Went server s.cache round s (elim o as (λ _. Turn sys) [
            | none ↦ on s []
            | some msg ↦ respond sys server msg from s
          ])
      message none n from got cut = stay s
      message (some msg) n from got cut = respond-Went server round n msg from s got cut

      kind :
          (k : ErrorKind) (e : sys.IoError)
          → (elim k as (λ _. Option sys.IoError) [
            | would_block ↦ none
            | timed_out ↦ none
            | connection_refused ↦ none
            | other_kind ↦ some e
          ])
            ≡ none
          → Went server s.cache round s
              (if goes_on k then on s [] else stop (io (codes "udp recv") e))
      kind would_block e h = stay s
      kind timed_out e h = stay s
      kind connection_refused e h = stay s
      kind other_kind e h = absurd cc

      go :
          (got : Outcome sys.IoError (ℕ × sys.Address))
          → round.received ≡ got
          → fatal got ≡ none
          → Went server s.cache round s (elim got as (λ _. Turn sys) [
            | fault e ↦ if goes_on (sys.kind e) then on s [] else stop (io (codes "udp recv") e)
            | fine (n, from) ↦ elim (slice round.query 0 n) [
              | none ↦ on s []
              | some msg ↦ respond sys server msg from s
            ]
          ])
      go (fault e) is h = kind (sys.kind e) e h
      go (fine (n, from)) is h = message (slice round.query 0 n) n from is refl

  pub turn-Went :
      (server : Server) (round : Round sys) (s : Serving sys)
      → GoesOn round
      → Went server (drain round.waiting s.cache) round s (turn sys server round s)
  unfolding turn
  turn-Went server round s goes =
      let w = receive-Went server round (record s { cache = drain round.waiting s.cache }) goes in
      record {
        after = w.after;
        out = w.out;
        turn_is = w.turn_is;
        cache_is = w.cache_is;
        buffer_kept = w.buffer_kept;
        replies = w.replies;
      }
