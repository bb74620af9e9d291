-- ===== src/Host/Fallback.antt =====
-- src/host.rs: the refresh of single jobs sends what is built up to the first failure, after which the
-- whole cluster is due.
use hopdns.Base.{
  ℕ, ◌≤◌, List, [], ◌∷◌, ◌++◌, Option, none, some, ◌≡◌, refl, ap, ◌∙◌, ◌⊎◌, inl, inr, arith, le→leb,
  Option-cases,
}
use hopdns.Host.Refresh.{Api, built, refresh_jobs, refresh}
use hopdns.Text.{Text}
use hopdns.Watcher.{
  Watcher, Action, Refresh, Update, next, next_due, take_pending, refresh_failed, retry_time,
  earliest,
}
use hopdns.Watcher.Build.{Hoplib}

module _ (E : Type 0) (h : Hoplib) where
  -- The messages are those that the jobs build, in order.
  abbrev pub EachBuilt : Api E h → Watcher → List Text → List Update → Type 0
  EachBuilt api w [] us = us ≡ []
  EachBuilt api w (job ∷ jobs) [] = ⊥
  EachBuilt api w (job ∷ jobs) (u ∷ us) = (built E h api w job ≡ some u) × EachBuilt api w jobs us

  -- The jobs up to the first that does not build.
  pub record FailedAt (api : Api E h) (w : Watcher) (jobs : List Text) (us : List Update)
      : Type 0 where
    pub before : List Text
    pub bad : Text
    pub after : List Text
    pub jobs_are : jobs ≡ before ++ bad ∷ after
    pub each : EachBuilt api w before us
    pub fails : built E h api w bad ≡ none

  abbrev Ends : Api E h → ℕ → List Text → List Text → Watcher → Watcher × List Update → Type 0
  Ends api now all jobs w p =
      ((p.0 ≡ w) × EachBuilt api w jobs (p.1))
      ⊎ ((p.0 ≡ refresh_failed now (Refresh.jobs all) w) × FailedAt api w jobs (p.1))

  first-Ends :
      (api : Api E h) (now : ℕ) (all jobs : List Text) (job : Text) (w : Watcher) (u : Update)
      (p : Watcher × List Update)
      → built E h api w job ≡ some u
      → Ends api now all jobs w p
      → Ends api now all (job ∷ jobs) w (p.0, u ∷ p.1)
  first-Ends api now all jobs job w u p made (inl (same, each)) = inl (same, (made, each))
  first-Ends api now all jobs job w u p made (inr (failed, f)) = inr (
    failed,
    record {
      before = job ∷ f.before;
      bad = f.bad;
      after = f.after;
      jobs_are = ap (◌∷◌ job) f.jobs_are;
      each = (made, f.each);
      fails = f.fails;
    },
  )

  refresh_jobs-Ends :
      (api : Api E h) (now : ℕ) (all jobs : List Text) (w : Watcher)
      → Ends api now all jobs w (refresh_jobs E h api now all jobs w)
  unfolding refresh_jobs
  refresh_jobs-Ends api now all [] w = inl (refl, refl)
  refresh_jobs-Ends api now all (job ∷ jobs) w = elim (Option-cases (built E h api w job)) [
    | inl missing ↦
        rw (missing, refresh_jobs)
          (inr (
            refl,
            record {
              before = [];
              bad = job;
              after = jobs;
              jobs_are = refl;
              each = refl;
              fails = missing;
            },
          ))
    | inr (u, made) ↦
        rw (made, refresh_jobs)
          (first-Ends api now all jobs job w u _ made (refresh_jobs-Ends api now all jobs w))
  ]

  earliest_le : (o : Option ℕ) (at : ℕ) → earliest o at ≤ at
  earliest_le none at = omega arith
  earliest_le (some d) at = omega arith

  failed-next :
      (now later : ℕ) (jobs : List Text) (w : Watcher) (cluster : Text)
      → w.cluster ≡ some cluster
      → now ≤ later
      → (next later (refresh_failed now (Refresh.jobs jobs) w)).1 ≡ Action.refresh Refresh.full
  unfolding next next_due take_pending refresh_failed retry_time
  failed-next now later jobs w cluster known past =
      let soon : earliest w.due now ≤ later = omega (arith, earliest_le w.due now) in
      rw (known, next) (rw (le→leb (earliest w.due now) later soon, next_due) refl)

  -- For a watcher that knows its cluster, the refresh of a list of jobs either builds all and
  -- sends their messages in order, with the watcher as it was, or sends those of the jobs before
  -- the first that does not build, and from then on `next` asks for a full refresh at any time.
  pub refresh-next :
      (api : Api E h) (now : ℕ) (jobs : List Text) (w : Watcher) (cluster : Text)
      → w.cluster ≡ some cluster
      → (w' : Watcher) × (us : List Update) × (refresh E h api now (Refresh.jobs jobs) w ≡ (w', us))
        × (((w' ≡ w) × EachBuilt api w jobs us)
            ⊎ (FailedAt api w jobs us
                × ((later : ℕ) → now ≤ later → (next later w').1 ≡ Action.refresh Refresh.full)))
  unfolding refresh
  refresh-next api now jobs w cluster known = (
    (refresh_jobs E h api now jobs jobs w).0,
    (refresh_jobs E h api now jobs jobs w).1,
    refl,
    elim (refresh_jobs-Ends api now jobs jobs w) [
      | inl (same, each) ↦ inl (same, each)
      | inr (failed, f) ↦ inr (
        f,
        λ later past.
            ap (λ (x : Watcher). (next later x).1) failed
            ∙ failed-next now later jobs w cluster known past,
      )
    ],
  )
