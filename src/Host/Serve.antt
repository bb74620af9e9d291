-- ===== src/Host/Serve.antt =====
-- src/host.rs: the server thread. It owns the cache, puts the waiting messages into it before each
-- receive, and answers what it receives. What the environment does between two turns is a round.
use hopdns.Base.{
  ℕ, Bool, true, false, List, [], ◌∷◌, ◌++◌, Option, none, some, if◌then◌else◌, replicate, slice,
}
use hopdns.Cache
use hopdns.Cache.{Cache}
use hopdns.Host.{
  Outcome, fine, fault, ErrorKind, would_block, timed_out, connection_refused, other_kind, System,
  HostError, io,
}
use hopdns.Server.{Server, handle}
use hopdns.Text.{codes}
use hopdns.Watcher.{Update, apply}
use hopdns.Wire.{edns_max}

-- A message of the channel, and whether the allocator gives what it needs when it is applied.
abbrev pub Message : Type 0
Message = Bool × Update

-- `drain`: an error is logged, and the next message follows.
unfoldable pub drain : List Message → Cache → Cache
drain [] c = c
drain ((grant, u) ∷ waiting) c = drain waiting ((apply grant u c).0)

-- The errors of a receive that are no reason to stop.
unfoldable pub goes_on : ErrorKind → Bool
goes_on would_block = true
goes_on timed_out = true
goes_on connection_refused = true
goes_on other_kind = false

module _ (sys : System) where
  -- One turn of the loop as the environment decides it: the messages that wait, what the buffer of
  -- the query holds after the receive, and what the receive gives.
  pub record Round : Type 0 where
    pub waiting : List Message
    pub query : List ℕ
    pub received : Outcome sys.IoError (ℕ × sys.Address)

  -- The cache, and the buffer for the answers.
  pub record Serving : Type 0 where
    pub cache : Cache
    pub answer : List ℕ

  unfoldable pub begin : Serving
  begin = record { cache = Cache.new; answer = replicate edns_max 0 }

  -- What is sent, and to whom.
  abbrev pub Sent : Type 0
  Sent = List ℕ × sys.Address

  pub data Turn : Type 0 where
    on : Serving → List Sent → Turn
    stop : HostError sys → Turn

  -- `answer.get(..len)` and `send_to`, whose failure is no matter.
  unfoldable pub respond : Server → List ℕ → sys.Address → Serving → Turn
  respond server msg from s = elim (handle server s.cache msg s.answer) [
    | none ↦ on s []
    | some (buf, len) ↦
        on (record s { answer = buf })
          (elim (slice buf 0 len) [ none ↦ [] | some out ↦ (out, from) ∷ [] ])
  ]

  unfoldable pub receive : Server → Round → Serving → Turn
  receive server round s = elim (round.received) [
    | fault e ↦ if goes_on (sys.kind e) then on s [] else stop (io (codes "udp recv") e)
    | fine (n, from) ↦ elim (slice round.query 0 n) [
      | none ↦ on s []
      | some msg ↦ respond server msg from s
    ]
  ]

  -- The body of the loop.
  unfoldable pub turn : Server → Round → Serving → Turn
  turn server round s = receive server round (record s { cache = drain round.waiting s.cache })

  -- `Daemon::serve`: what is sent over these rounds, and the error it ends with, if it ends.
  unfoldable pub serve : Server → List Round → Serving → List Sent × Option (HostError sys)
  serve server [] s = ([], none)
  serve server (round ∷ rounds) s = elim (turn server round s) [
    | stop e ↦ ([], some e)
    | on s' sent ↦ let (later, ended) = serve server rounds s' in (sent ++ later, ended)
  ]
