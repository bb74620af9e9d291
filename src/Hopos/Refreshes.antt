-- ===== src/Hopos/Refreshes.antt =====
-- src/bin/hopdns-hopos.rs: what a refresh of the watcher task posts is of its own cluster, also with a node of
-- its own.
use hopdns.Base.{
  ℕ, List, [], ◌∷◌, Option, none, some, ◌≡◌, inl, inr, refl, subst, Option-cases, All,
}
use hopdns.Errors.{Result, ok, err}
use hopdns.Host.{Outcome, fine, fault}
use hopdns.Host.Refresh.{Api, sent_of}
use hopdns.Host.Refreshes.{
  Mine, Refreshed, refreshed_full-Mine, refreshed_job-Mine, failed-Refreshed,
}
use hopdns.Hopos.{Resident}
use hopdns.Hopos.Watch.{to_option, fetched, refresh_full, built, refresh_jobs, refresh}
use hopdns.Text.{Text}
use hopdns.Watcher.{Watcher, Refresh, Update, refresh_failed}
use hopdns.Watcher.Build.{Hoplib, Local, refreshed_full, refreshed_job}

module _ (sys : Resident) (h : Hoplib) (here : Option Local) where
  -- The machine stays as it was.
  kept-Refreshed :
      (w : Watcher) (us : List Update)
      → All (Mine w.cluster) us
      → Refreshed sys.NetError h w (w, us)
  kept-Refreshed w us mine = record { reached = λ r. r; cluster_kept = refl; mine = mine }

  built-Mine :
      (api : Api sys.NetError h) (w : Watcher) (job : Text) (u : Update)
      → built sys h api here w job ≡ some u
      → Mine w.cluster u
  unfolding built
  built-Mine api w job u e = go (api.job_status job) e
    where
      known :
          (agents : List h.AgentInfo) (tasks : List h.AgentTasks) (o : Result Update)
          → refreshed_job h job agents tasks here w ≡ o
          → to_option o ≡ some u
          → Mine w.cluster u
      known agents tasks (err _) r e' = absurd cc
      known agents tasks (ok u') r e' =
          let same : u' ≡ u = cc in
          subst (Mine w.cluster) same (refreshed_job-Mine h job agents tasks here w u' r)

      go :
          (st : Outcome sys.NetError (List h.AgentInfo × List h.AgentTasks))
          → (elim st as (λ _. Option Update) [
            | fine (agents, tasks) ↦ to_option (refreshed_job h job agents tasks here w)
            | fault _ ↦ none
          ])
            ≡ some u
          → Mine w.cluster u
      go (fault _) e' = absurd cc
      go (fine (agents, tasks)) e' =
          known agents tasks (refreshed_job h job agents tasks here w) refl e'

  refresh_jobs-Refreshed :
      (api : Api sys.NetError h) (now : ℕ) (what : Refresh) (jobs : List Text) (w : Watcher)
      → Refreshed sys.NetError h w (refresh_jobs sys h api now here what jobs w)
  unfolding refresh_jobs
  refresh_jobs-Refreshed api now what [] w = kept-Refreshed w [] tt
  refresh_jobs-Refreshed api now what (job ∷ jobs) w =
      elim (Option-cases (built sys h api here w job)) [
        | inl missing ↦ rw (missing, refresh_jobs) (failed-Refreshed sys.NetError h now what w)
        | inr (u, made) ↦
            let r = refresh_jobs-Refreshed api now what jobs w in
            rw (made, refresh_jobs)
              (record {
                reached = r.reached;
                cluster_kept = r.cluster_kept;
                mine = (built-Mine api w job u made, r.mine);
              })
      ]

  full-Refreshed :
      (agents : List h.AgentInfo) (tasks : List h.AgentTasks) (w : Watcher) (o : Result Update)
      → All (Mine w.cluster) (sent_of o)
      → Refreshed sys.NetError h w
          (elim o as (λ _. Watcher × List Update) [ ok u ↦ (w, u ∷ []) | err _ ↦ (w, []) ])
  full-Refreshed agents tasks w (ok u) mine = kept-Refreshed w (u ∷ []) mine
  full-Refreshed agents tasks w (err _) mine = kept-Refreshed w [] tt

  pub refresh-Refreshed :
      (api : Api sys.NetError h) (now : ℕ) (what : Refresh) (w : Watcher)
      → Refreshed sys.NetError h w (refresh sys h api now here what w)
  unfolding refresh refresh_full
  refresh-Refreshed api now (Refresh.jobs jobs) w =
      refresh_jobs-Refreshed api now (Refresh.jobs jobs) jobs w
  refresh-Refreshed api now Refresh.full w = go (fetched sys h api)
    where
      go :
          (got : Outcome sys.NetError (List h.AgentInfo × List h.AgentTasks))
          → Refreshed sys.NetError h w (elim got as (λ _. Watcher × List Update) [
            | fine (agents, tasks) ↦ elim (refreshed_full h agents tasks here w) [
              | ok u ↦ (w, u ∷ [])
              | err _ ↦ (w, [])
            ]
            | fault _ ↦ (refresh_failed now Refresh.full w, [])
          ])
      go (fine (agents, tasks)) =
          full-Refreshed agents tasks w (refreshed_full h agents tasks here w)
            (refreshed_full-Mine h agents tasks here w)
      go (fault _) = failed-Refreshed sys.NetError h now Refresh.full w
