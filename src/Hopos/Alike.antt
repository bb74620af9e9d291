-- ===== src/Hopos/Alike.antt =====
-- src/bin/hopdns-hopos.rs: the watcher task refreshes as the watcher thread of the host does.
use hopdns.Base.{ℕ, List, [], ◌∷◌, Option, none, some, ◌≡◌, refl, ap, ◌∙◌}
use hopdns.Errors.{Result, ok, err}
use hopdns.Host
use hopdns.Host.{Outcome, fine, fault}
use hopdns.Host.Refresh
use hopdns.Host.Refresh.{Api, both, sent_of}
use hopdns.Hopos.{Resident}
use hopdns.Hopos.Watch.{to_option, fetched, refresh_full, built, refresh_jobs, refresh}
use hopdns.Text.{Text}
use hopdns.Watcher.{Watcher, Refresh, Update, refresh_failed}
use hopdns.Watcher.Build.{Hoplib, refreshed_full, refreshed_job}

module _ (sys : Resident) (h : Hoplib) where
  fetched-both : (api : Api sys.NetError h) → fetched sys h api ≡ both sys.NetError h api
  unfolding fetched both
  fetched-both api = go api.agents api.tasks
    where
      go :
          (a : Outcome sys.NetError (List h.AgentInfo))
          (t : Outcome sys.NetError (List h.AgentTasks))
          → (elim a as (λ _. Outcome sys.NetError (List h.AgentInfo × List h.AgentTasks)) [
            | fault e ↦ fault e
            | fine agents ↦ elim t [ fine tasks ↦ fine (agents, tasks) | fault e ↦ fault e ]
          ])
            ≡ Host.◌>>=◌ a (λ agents. Host.◌>>=◌ t (λ tasks. fine (agents, tasks)))
      go (fault _) t = refl
      go (fine _) (fault _) = refl
      go (fine _) (fine _) = refl

  refresh_full-same :
      (api : Api sys.NetError h) (now : ℕ) (w : Watcher)
      → refresh_full sys h api now none w ≡ Refresh.refresh_full sys.NetError h api now w
  unfolding refresh_full Refresh.refresh_full
  refresh_full-same api now w = ap whole (fetched-both api) ∙ go (both sys.NetError h api)
    where
      whole : Outcome sys.NetError (List h.AgentInfo × List h.AgentTasks) → Watcher × List Update
      whole (fine (agents, tasks)) = elim (refreshed_full h agents tasks none w) [
        | ok u ↦ (w, u ∷ [])
        | err _ ↦ (w, [])
      ]
      whole (fault _) = (refresh_failed now Refresh.full w, [])

      one :
          (o : Result Update)
          → (elim o as (λ _. Watcher × List Update) [ ok u ↦ (w, u ∷ []) | err _ ↦ (w, []) ])
            ≡ (w, sent_of o)
      one (ok u) = refl
      one (err e) = refl

      go :
          (o : Outcome sys.NetError (List h.AgentInfo × List h.AgentTasks))
          → whole o ≡ (elim o as (λ _. Watcher × List Update) [
            | fine (agents, tasks) ↦ (w, sent_of (refreshed_full h agents tasks none w))
            | fault _ ↦ (refresh_failed now Refresh.full w, [])
          ])
      go (fault _) = refl
      go (fine (agents, tasks)) = one (refreshed_full h agents tasks none w)

  built-same :
      (api : Api sys.NetError h) (w : Watcher) (job : Text)
      → built sys h api none w job ≡ Refresh.built sys.NetError h api w job
  unfolding built Refresh.built
  built-same api w job = go (api.job_status job)
    where
      one :
          (o : Result Update)
          → to_option o ≡ (elim o as (λ _. Option Update) [ ok u ↦ some u | err _ ↦ none ])
      one (ok u) = refl
      one (err e) = refl

      go :
          (o : Outcome sys.NetError (List h.AgentInfo × List h.AgentTasks))
          → (elim o as (λ _. Option Update) [
            | fine (agents, tasks) ↦ to_option (refreshed_job h job agents tasks none w)
            | fault _ ↦ none
          ])
            ≡ (elim o as (λ _. Option Update) [
              | fault _ ↦ none
              | fine (agents, tasks) ↦ elim (refreshed_job h job agents tasks none w) [
                | ok u ↦ some u
                | err _ ↦ none
              ]
            ])
      go (fault _) = refl
      go (fine (agents, tasks)) = one (refreshed_job h job agents tasks none w)

  refresh_jobs-same :
      (api : Api sys.NetError h) (now : ℕ) (all jobs : List Text) (w : Watcher)
      → refresh_jobs sys h api now none (Refresh.jobs all) jobs w
        ≡ Refresh.refresh_jobs sys.NetError h api now all jobs w
  unfolding refresh_jobs Refresh.refresh_jobs
  refresh_jobs-same api now all [] w = refl
  refresh_jobs-same api now all (job ∷ jobs) w =
      ap step (built-same api w job)
      ∙ next (Refresh.built sys.NetError h api w job) (refresh_jobs-same api now all jobs w)
    where
      step : Option Update → Watcher × List Update
      step (some u) =
          let (w', later) = refresh_jobs sys h api now none (Refresh.jobs all) jobs w in
          (w', u ∷ later)
      step none = (refresh_failed now (Refresh.jobs all) w, [])

      next :
          (o : Option Update)
          → refresh_jobs sys h api now none (Refresh.jobs all) jobs w
            ≡ Refresh.refresh_jobs sys.NetError h api now all jobs w
          → step o ≡ (elim o as (λ _. Watcher × List Update) [
            | none ↦ (refresh_failed now (Refresh.jobs all) w, [])
            | some u ↦
                let (w', later) = Refresh.refresh_jobs sys.NetError h api now all jobs w in
                (w', u ∷ later)
          ])
      next none e = refl
      next (some u) e = ap (λ (p : Watcher × List Update). (p.0, u ∷ p.1)) e

  -- For each answer of the API and each watcher, `refresh` of the resident with no local node
  -- gives the watcher and the messages that `refresh` of the host daemon gives.
  pub refresh-same :
      (api : Api sys.NetError h) (now : ℕ) (what : Refresh) (w : Watcher)
      → refresh sys h api now none what w ≡ Refresh.refresh sys.NetError h api now what w
  unfolding refresh Refresh.refresh
  refresh-same api now Refresh.full w = refresh_full-same api now w
  refresh-same api now (Refresh.jobs jobs) w = refresh_jobs-same api now jobs jobs w
