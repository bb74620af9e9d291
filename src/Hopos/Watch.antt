-- ===== src/Hopos/Watch.antt =====
-- src/bin/hopdns-hopos.rs: the watcher task of one peer, its reader and its refreshes.
use hopdns.Base.{ℕ, Bool, List, [], ◌∷◌, ◌++◌, Option, none, some}
use hopdns.Errors.{Result, ok, err}
use hopdns.Host.{Outcome, fine, fault}
use hopdns.Host.Refresh.{Api}
use hopdns.Hopos.{Resident}
use hopdns.Text.{Text}
use hopdns.Watcher
use hopdns.Watcher.{
  Watcher, Action, Refresh, Topic, Update, next, discovered, discover_failed, refresh_failed,
}
use hopdns.Watcher.Build.{Hoplib, Local, refreshed_full, refreshed_job}

pub data Heard : Type 0 where
  event : Option Topic → Heard
  lost : Heard

-- `Result::ok`.
abbrev pub to_option : Result Update → Option Update
to_option (ok u) = some u
to_option (err _) = none

module _ (sys : Resident) (h : Hoplib) where
  abbrev pub heard_of : Outcome sys.NetError (Option Topic) → Heard
  heard_of (fine topic) = Heard.event topic
  heard_of (fault _) = Heard.lost

  -- `read_events`: what is posted of what the stream gives.
  unfoldable pub read_events : List (Outcome sys.NetError (Option Topic)) → List Heard
  read_events [] = []
  read_events (got ∷ stream) = heard_of got ∷ read_events stream

  -- The `match` on `agents` and then on `tasks`.
  unfoldable pub fetched :
      Api sys.NetError h → Outcome sys.NetError (List h.AgentInfo × List h.AgentTasks)
  fetched api = elim (api.agents) [
    | fault e ↦ fault e
    | fine agents ↦ elim (api.tasks) [ fine tasks ↦ fine (agents, tasks) | fault e ↦ fault e ]
  ]

  unfoldable pub refresh_full :
      Api sys.NetError h → ℕ → Option Local → Watcher → Watcher × List Update
  refresh_full api now here w = elim (fetched api) [
    | fine (agents, tasks) ↦ elim (refreshed_full h agents tasks here w) [
      | ok u ↦ (w, u ∷ [])
      | err _ ↦ (w, [])
    ]
    | fault _ ↦ (refresh_failed now Refresh.full w, [])
  ]

  unfoldable pub built : Api sys.NetError h → Option Local → Watcher → Text → Option Update
  built api here w job = elim (api.job_status job) [
    | fine (agents, tasks) ↦ to_option (refreshed_job h job agents tasks here w)
    | fault _ ↦ none
  ]

  unfoldable pub refresh_jobs :
      Api sys.NetError h → ℕ → Option Local → Refresh → List Text → Watcher → Watcher × List Update
  refresh_jobs api now here what [] w = (w, [])
  refresh_jobs api now here what (job ∷ jobs) w = elim (built api here w job) [
    | some u ↦ let (w', later) = refresh_jobs api now here what jobs w in (w', u ∷ later)
    | none ↦ (refresh_failed now what w, [])
  ]

  -- `refresh`: the watcher, and what is posted.
  unfoldable pub refresh :
      Api sys.NetError h → ℕ → Option Local → Refresh → Watcher → Watcher × List Update
  refresh api now here Refresh.full w = refresh_full api now here w
  refresh api now here (Refresh.jobs jobs) w = refresh_jobs api now here (Refresh.jobs jobs) jobs w

  -- One turn of the loop: `next_heard` is what comes into the inbox, `in_time` what comes before a time.
  pub record Round : Type 0 where
    pub now : ℕ
    pub later : ℕ
    pub api : Api sys.NetError h
    pub grant : Bool
    pub next_heard : Heard
    pub in_time : ℕ → Option Heard

  pub record Watching : Type 0 where
    pub watcher : Watcher
    pub updates : List Update

  unfoldable pub begin : Text → Watching
  begin endpoint = record { watcher = Watcher.new endpoint; updates = [] }

  unfoldable pub discover : Round → Watching → Watching
  discover round s = elim (round.api.status) [
    | fine name ↦ record s { watcher = (discovered round.later name s.watcher).0 }
    | fault _ ↦ record s { watcher = discover_failed round.later s.watcher }
  ]

  unfoldable pub refreshing : Option Local → Round → Refresh → Watching → Watching
  refreshing here round what s =
      let (w, posted) = refresh round.api round.later here what s.watcher in
      record s { watcher = w; updates = s.updates ++ posted }

  -- `inbox.recv()`, or `select` of it and the deadline.
  unfoldable pub waited : Round → Option ℕ → Option Heard
  waited round none = some round.next_heard
  waited round (some t) = round.in_time t

  unfoldable pub hear : Round → Option Heard → Watching → Watching
  hear round (some (Heard.event topic)) s = record s {
    watcher = (Watcher.event round.grant round.later topic s.watcher).0;
  }
  hear round (some Heard.lost) s = record s { watcher = Watcher.lost s.watcher }
  hear round none s = s

  unfoldable pub act : Option Local → Round → Action → Watching → Watching
  act here round Action.discover s = discover round s
  act here round (Action.refresh what) s = refreshing here round what s
  act here round (Action.wait deadline) s = hear round (waited round deadline) s

  unfoldable pub turn : Option Local → Round → Watching → Watching
  turn here round s =
      let (w, action) = next round.now s.watcher in act here round action (record s { watcher = w })

  -- `watch`, over these rounds: it does not end by itself.
  unfoldable pub watch : Option Local → List Round → Watching → Watching
  watch here [] s = s
  watch here (round ∷ rounds) s = watch here rounds (turn here round s)
