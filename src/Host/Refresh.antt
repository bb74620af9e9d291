-- ===== src/Host/Refresh.antt =====
-- src/host.rs: how a watcher thread carries out a refresh, and what it sends.
use hopdns.Base.{ℕ, List, [], ◌∷◌, Option, none, some}
use hopdns.Errors.{Result, ok, err}
use hopdns.Host.{Outcome, fine, fault, ◌>>=◌}
use hopdns.Text.{Text}
use hopdns.Watcher.{Watcher, Refresh, Update, refresh_failed}
use hopdns.Watcher.Build.{Hoplib, refreshed_full, refreshed_job}

-- `Ok(u)` is sent; what does not build is logged.
abbrev pub sent_of : Result Update → List Update
sent_of (ok u) = u ∷ []
sent_of (err _) = []

module _ (E : Type 0) (h : Hoplib) where
  -- The agent's API, as it answers now. A `JobStatus` is its agents and tasks.
  pub record Api : Type 0 where
    pub status : Outcome E Text
    pub agents : Outcome E (List h.AgentInfo)
    pub tasks : Outcome E (List h.AgentTasks)
    pub job_status : Text → Outcome E (List h.AgentInfo × List h.AgentTasks)

  -- `agent.agents().and_then(|a| agent.tasks().map(|t| (a, t)))`.
  unfoldable pub both : Api → Outcome E (List h.AgentInfo × List h.AgentTasks)
  both api = do agents ← api.agents; tasks ← api.tasks; fine (agents, tasks)

  unfoldable pub refresh_full : Api → ℕ → Watcher → Watcher × List Update
  refresh_full api now w = elim (both api) [
    | fine (agents, tasks) ↦ (w, sent_of (refreshed_full h agents tasks none w))
    | fault _ ↦ (refresh_failed now Refresh.full w, [])
  ]

  -- What one job's status builds; nothing where an error is logged.
  unfoldable pub built : Api → Watcher → Text → Option Update
  built api w job = elim (api.job_status job) [
    | fault _ ↦ none
    | fine (agents, tasks) ↦ elim (refreshed_job h job agents tasks none w) [
      | ok u ↦ some u
      | err _ ↦ none
    ]
  ]

  -- The loop over the jobs; `all` is the refresh that it is part of.
  unfoldable pub refresh_jobs : Api → ℕ → List Text → List Text → Watcher → Watcher × List Update
  refresh_jobs api now all [] w = (w, [])
  refresh_jobs api now all (job ∷ jobs) w = elim (built api w job) [
    | none ↦ (refresh_failed now (Refresh.jobs all) w, [])
    | some u ↦ let (w', later) = refresh_jobs api now all jobs w in (w', u ∷ later)
  ]

  -- `refresh`: the watcher, and what it sends.
  unfoldable pub refresh : Api → ℕ → Refresh → Watcher → Watcher × List Update
  refresh api now Refresh.full w = refresh_full api now w
  refresh api now (Refresh.jobs jobs) w = refresh_jobs api now jobs jobs w
