-- ===== src/Host/Refreshes.antt =====
-- src/host.rs: what a refresh of the watcher thread does, and that what it sends is of its own cluster.
use hopdns.Base.{
  ℕ, List, [], ◌∷◌, Option, none, some, ◌≡◌, refl, subst, inl, inr, All, All-map, Option-cases,
}
use hopdns.Errors
use hopdns.Errors.{Result, ok, err}
use hopdns.Host.{Outcome, fine, fault}
use hopdns.Host.Drained.{IsSound}
use hopdns.Host.Refresh.{Api, both, sent_of, refresh_full, built, refresh_jobs, refresh}
use hopdns.Text.{Text, lowercase}
use hopdns.Watcher.{Watcher, Refresh, Update, refresh_failed, cluster_of}
use hopdns.Watcher.Build.{Hoplib, Local, build_job, refreshed_full, refreshed_job}
use hopdns.Watcher.Build.Agree.{build_jobs-IsSorted}
use hopdns.Watcher.Steps
use hopdns.Watcher.Steps.{Reachable}

-- A message for this cluster, with a sorted image.
abbrev pub Mine : Option Text → Update → Type 0
Mine cluster u = (cluster ≡ some (cluster_of u)) × IsSound u

-- Nothing was sent before the cluster is known.
pub unsent :
    (updates : List Update) (o : Option Text) → All (Mine none) updates → All (Mine o) updates
unsent updates o mine =
    All-map (Mine none) (Mine o) updates (λ u m. absurd (let e = m.0 in cc)) mine

module _ (h : Hoplib) where
  pub refreshed_full-Mine :
      (agents : List h.AgentInfo) (tasks : List h.AgentTasks) (here : Option Local) (w : Watcher)
      → All (Mine w.cluster) (sent_of (refreshed_full h agents tasks here w))
  unfolding refreshed_full cluster_of
  refreshed_full-Mine agents tasks here w = elim (Option-cases w.cluster) [
    | inl unknown ↦ rw (unknown, refreshed_full) tt
    | inr (name, known) ↦
        rw (known, refreshed_full) ((refl, build_jobs-IsSorted h agents tasks here), tt)
  ]

  pub refreshed_job-Mine :
      (job : Text) (agents : List h.AgentInfo) (tasks : List h.AgentTasks) (here : Option Local)
      (w : Watcher) (u : Update)
      → refreshed_job h job agents tasks here w ≡ ok u
      → Mine w.cluster u
  unfolding refreshed_job cluster_of
  refreshed_job-Mine job agents tasks here w u e = go w.cluster refl e
    where
      go :
          (o : Option Text)
          → w.cluster ≡ o
          → (elim o as (λ _. Result Update) [
            | none ↦ err Errors.no_cluster_name
            | some cluster ↦
                ok (Update.set cluster (lowercase job) (build_job h job agents tasks here))
          ])
            ≡ ok u
          → Mine w.cluster u
      go none known e' = cc
      go (some cluster) known e' =
          let set : Update.set cluster (lowercase job) (build_job h job agents tasks here) ≡ u =
            cc in
          subst (Mine w.cluster) set (known, tt)

module _ (E : Type 0) (h : Hoplib) where
  -- What a refresh does: the state machine's cluster stays, and what is sent is of that cluster.
  pub record Refreshed (w : Watcher) (p : Watcher × List Update) : Type 0 where
    pub reached : Reachable w → Reachable (p.0)
    pub cluster_kept : p.0.cluster ≡ w.cluster
    pub mine : All (Mine w.cluster) (p.1)

  pub failed-Refreshed :
      (now : ℕ) (what : Refresh) (w : Watcher) → Refreshed w (refresh_failed now what w, [])
  unfolding refresh_failed
  failed-Refreshed now what w = record {
    reached = λ r. Reachable.stepped r (Steps.Step.failed now what w);
    cluster_kept = refl;
    mine = tt;
  }

  built-Mine :
      (api : Api E h) (w : Watcher) (job : Text) (u : Update)
      → built E h api w job ≡ some u
      → Mine w.cluster u
  unfolding built
  built-Mine api w job u e = go (api.job_status job) e
    where
      known :
          (agents : List h.AgentInfo) (tasks : List h.AgentTasks) (o : Result Update)
          → refreshed_job h job agents tasks none w ≡ o
          → (elim o as (λ _. Option Update) [ ok u' ↦ some u' | err _ ↦ none ]) ≡ some u
          → Mine w.cluster u
      known agents tasks (err _) r e' = cc
      known agents tasks (ok u') r e' =
          let same : u' ≡ u = cc in
          subst (Mine w.cluster) same (refreshed_job-Mine h job agents tasks none w u' r)

      go :
          (st : Outcome E (List h.AgentInfo × List h.AgentTasks))
          → (elim st as (λ _. Option Update) [
            | fault _ ↦ none
            | fine (agents, tasks) ↦ elim (refreshed_job h job agents tasks none w) [
              | ok u' ↦ some u'
              | err _ ↦ none
            ]
          ])
            ≡ some u
          → Mine w.cluster u
      go (fault _) e' = cc
      go (fine (agents, tasks)) e' =
          known agents tasks (refreshed_job h job agents tasks none w) refl e'

  refresh_jobs-Refreshed :
      (api : Api E h) (now : ℕ) (all jobs : List Text) (w : Watcher)
      → Refreshed w (refresh_jobs E h api now all jobs w)
  unfolding refresh_jobs
  refresh_jobs-Refreshed api now all [] w = record {
    reached = λ r. r;
    cluster_kept = refl;
    mine = tt;
  }
  refresh_jobs-Refreshed api now all (job ∷ jobs) w = elim (Option-cases (built E h api w job)) [
    | inl missing ↦ rw (missing, refresh_jobs) (failed-Refreshed now (Refresh.jobs all) w)
    | inr (u, made) ↦
        let r = refresh_jobs-Refreshed api now all jobs w in
        rw (made, refresh_jobs)
          (record {
            reached = r.reached;
            cluster_kept = r.cluster_kept;
            mine = (built-Mine api w job u made, r.mine);
          })
  ]

  pub refresh-Refreshed :
      (api : Api E h) (now : ℕ) (what : Refresh) (w : Watcher)
      → Refreshed w (refresh E h api now what w)
  unfolding refresh refresh_full
  refresh-Refreshed api now (Refresh.jobs jobs) w = refresh_jobs-Refreshed api now jobs jobs w
  refresh-Refreshed api now Refresh.full w = go (both E h api)
    where
      go :
          (got : Outcome E (List h.AgentInfo × List h.AgentTasks))
          → Refreshed w (elim got as (λ _. Watcher × List Update) [
            | fine (agents, tasks) ↦ (w, sent_of (refreshed_full h agents tasks none w))
            | fault _ ↦ (refresh_failed now Refresh.full w, [])
          ])
      go (fine (agents, tasks)) = record {
        reached = λ r. r;
        cluster_kept = refl;
        mine = refreshed_full-Mine h agents tasks none w;
      }
      go (fault _) = failed-Refreshed now Refresh.full w
