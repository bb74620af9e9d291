-- ===== src/Host/Watch.antt =====
-- src/host.rs: the watcher thread of one peer. What the environment does in one turn of its loop is a
-- round: the times, what the API of the agent gives, and what the reader sends.
use hopdns.Base.{ℕ, ◌-◌, Bool, true, false, List, [], ◌∷◌, ◌++◌, Option, none, some, if◌then◌else◌}
use hopdns.Errors.{ok, err}
use hopdns.Host.{Outcome, fine, fault, System}
use hopdns.Host.Refresh.{Api, refresh}
use hopdns.Text.{Text}
use hopdns.Watcher
use hopdns.Watcher.{
  Watcher, Action, Refresh, Topic, Update, next, discovered, discover_failed, refresh_failed,
}
use hopdns.Watcher.Build.{Hoplib}

-- What the reader thread tells its watcher.
pub data Heard : Type 0 where
  event : Option Topic → Heard
  lost : Heard

-- `recv_timeout`.
pub data Waited : Type 0 where
  heard : Heard → Waited
  timeout : Waited
  disconnected : Waited

module _ (sys : System) (h : Hoplib) where
  abbrev pub heard_of : Outcome sys.HopError (Option Topic) → Heard
  heard_of (fine topic) = Heard.event topic
  heard_of (fault _) = Heard.lost

  -- `read_events`: what the reader sends of what the stream gives, until its watcher is gone.
  unfoldable pub read_events : List (Outcome sys.HopError (Option Topic) × Bool) → List Heard
  read_events [] = []
  read_events ((got, taken) ∷ stream) =
      let later = read_events stream in if taken then heard_of got ∷ later else []

  -- One turn of the loop. The clock is read again when something came back.
  pub record Round : Type 0 where
    pub now : ℕ
    pub later : ℕ
    pub api : Api sys.HopError h
    pub grant : Bool
    pub recv : Option Heard
    pub recv_timeout : ℕ → Waited
    pub spawned : Outcome sys.IoError (Unit {0})

  -- The watcher, whether the reader was started, what was sent, and whether the thread runs.
  pub record Watching : Type 0 where
    pub watcher : Watcher
    pub reader : Bool
    pub updates : List Update
    pub running : Bool

  unfoldable pub begin : Text → Watching
  begin endpoint = record {
    watcher = Watcher.new endpoint;
    reader = false;
    updates = [];
    running = true;
  }

  -- `reader.take()`, and the thread for it.
  unfoldable pub start_reader : Round → Watching → Watching
  start_reader round s = if s.reader then s else elim (round.spawned) [
    | fine _ ↦ record s { reader = true }
    | fault _ ↦ record s { reader = true; running = false }
  ]

  unfoldable pub discover : Round → Watching → Watching
  discover round s = elim (round.api.status) [
    | fault _ ↦ record s { watcher = discover_failed round.later s.watcher }
    | fine name ↦
        let (w, found) = discovered round.later name s.watcher in
        elim found [
          | ok _ ↦ start_reader round (record s { watcher = w })
          | err _ ↦ record s { watcher = w }
        ]
  ]

  unfoldable pub refreshing : Round → Refresh → Watching → Watching
  refreshing round what s =
      let (w, sent) = refresh sys.HopError h round.api round.later what s.watcher in
      record s { watcher = w; updates = s.updates ++ sent }

  -- `recv` without a deadline, `recv_timeout` with one.
  unfoldable pub waited : Round → Option ℕ → Waited
  waited round none = elim (round.recv) [ some x ↦ heard x | none ↦ disconnected ]
  waited round (some t) = round.recv_timeout (t - round.later)

  unfoldable pub hear : Round → Waited → Watching → Watching
  hear round (heard (Heard.event topic)) s = record s {
    watcher = (Watcher.event round.grant round.later topic s.watcher).0;
  }
  hear round (heard Heard.lost) s = record s { watcher = Watcher.lost s.watcher }
  hear round timeout s = s
  hear round disconnected s = record s { running = false }

  unfoldable pub act : Round → Action → Watching → Watching
  act round Action.discover s = discover round s
  act round (Action.refresh what) s = refreshing round what s
  act round (Action.wait deadline) s = hear round (waited round deadline) s

  -- The body of the loop.
  unfoldable pub turn : Round → Watching → Watching
  turn round s =
      let (w, action) = next round.now s.watcher in act round action (record s { watcher = w })

  -- `watch`: the loop runs until the thread ends.
  unfoldable pub watch : List Round → Watching → Watching
  watch [] s = s
  watch (round ∷ rounds) s = elim (s.running) [ false ↦ s | true ↦ watch rounds (turn round s) ]
