-- ===== src/Host/Driven.antt =====
-- src/host.rs: the watcher thread makes the steps of the state machine only, has a reader once it knows
-- its cluster, and sends messages of that cluster only.
use hopdns.Base.{
  ℕ, Bool, true, false, List, [], ◌∷◌, ◌++◌, Option, none, some, ◌≡◌, refl, sym, ◌∙◌, subst, inl,
  inr, leb, All, All-append, if◌then◌else◌, Bool-cases, Option-cases,
}
use hopdns.Errors.{Error, Result, ok, err}
use hopdns.Host.{Outcome, fine, fault, System}
use hopdns.Host.Refresh.{refresh}
use hopdns.Host.Refreshes.{Mine, unsent, refresh-Refreshed}
use hopdns.Host.Watch.{
  Heard, Waited, heard, timeout, disconnected, Round, Watching, begin, start_reader, discover,
  refreshing, waited, hear, act, turn, watch,
}
use hopdns.Text.{Text}
use hopdns.Watcher
use hopdns.Watcher.{
  Watcher, Action, Refresh, Topic, Update, next, next_due, take_pending, discovered,
  discover_failed, event, lost, refresh_failed,
}
use hopdns.Watcher.Actions.{
  next-cluster, event-cluster, discover_failed-cluster, lost-cluster, discovered-unknown,
  next-unknown, next-known,
}
use hopdns.Watcher.Build.{Hoplib}
use hopdns.Watcher.Steps
use hopdns.Watcher.Steps.{Reachable}

module _ (sys : System) (h : Hoplib) where
  -- What holds of the thread between two turns.
  pub record IsDriven (s : Watching sys h) : Type 0 where
    pub reached : Reachable s.watcher
    pub mine : All (Mine s.watcher.cluster) s.updates
    pub wired : (cluster : Text) → s.watcher.cluster ≡ some cluster → s.reader ≡ true

  begin-IsDriven : (endpoint : Text) → IsDriven (begin sys h endpoint)
  unfolding begin Watcher.new
  begin-IsDriven endpoint = record {
    reached = Reachable.begun endpoint;
    mine = tt;
    wired = λ cluster e. cc;
  }

  -- A step that leaves the cluster as it was.
  stepped-IsDriven :
      (s : Watching sys h) (w : Watcher) (running : Bool)
      → IsDriven s
      → Reachable w
      → w.cluster ≡ s.watcher.cluster
      → IsDriven (record s { watcher = w; running = running })
  stepped-IsDriven s w running d r same = record {
    reached = r;
    mine = subst (λ (o : Option Text). All (Mine o) s.updates) (sym same) d.mine;
    wired = λ cluster e. d.wired cluster (sym same ∙ e);
  }

  start_reader-IsDriven :
      (round : Round sys h) (s : Watching sys h)
      → Reachable s.watcher
      → All (Mine s.watcher.cluster) s.updates
      → IsDriven (start_reader sys h round s)
  unfolding start_reader
  start_reader-IsDriven round s r mine = elim (Bool-cases s.reader) [
    | inl taken ↦
        rw (taken, start_reader) (record { reached = r; mine = mine; wired = λ cluster e. refl })
    | inr held ↦ rw (held, start_reader) (go round.spawned)
  ]
    where
      go :
          (x : Outcome sys.IoError (Unit {0}))
          → IsDriven (elim x as (λ _. Watching sys h) [
            | fine _ ↦ record s { reader = true }
            | fault _ ↦ record s { reader = true; running = false }
          ])
      go (fine _) = record { reached = r; mine = mine; wired = λ cluster e. refl }
      go (fault _) = record { reached = r; mine = mine; wired = λ cluster e. refl }

  discover-IsDriven :
      (round : Round sys h) (s : Watching sys h)
      → s.watcher.cluster ≡ none
      → IsDriven s
      → IsDriven (discover sys h round s)
  unfolding discover
  discover-IsDriven round s unknown d = go round.api.status
    where
      sent : (o : Option Text) → All (Mine o) s.updates
      sent o =
          unsent s.updates o (subst (λ (x : Option Text). All (Mine x) s.updates) unknown d.mine)

      named :
          (w : Watcher) (found : Result (Unit {0}))
          → Reachable w
          → ((e : Error) → found ≡ err e → w.cluster ≡ none)
          → IsDriven (elim found as (λ _. Watching sys h) [
            | ok _ ↦ start_reader sys h round (record s { watcher = w })
            | err _ ↦ record s { watcher = w }
          ])
      named w (ok _) r same =
          start_reader-IsDriven round (record s { watcher = w }) r (sent w.cluster)
      named w (err e) r same = stepped-IsDriven s w s.running d r (same e refl ∙ sym unknown)

      go :
          (x : Outcome sys.HopError Text)
          → IsDriven (elim x as (λ _. Watching sys h) [
            | fault _ ↦ record s { watcher = discover_failed round.later s.watcher }
            | fine name ↦
                let (w, found) = discovered round.later name s.watcher in
                elim found [
                  | ok _ ↦ start_reader sys h round (record s { watcher = w })
                  | err _ ↦ record s { watcher = w }
                ]
          ])
      go (fault _) =
          stepped-IsDriven s (discover_failed round.later s.watcher) s.running d
            (Reachable.stepped d.reached (Steps.Step.unnamed round.later s.watcher))
            (discover_failed-cluster round.later s.watcher)
      go (fine name) =
          named ((discovered round.later name s.watcher).0)
            ((discovered round.later name s.watcher).1)
            (Reachable.stepped d.reached (Steps.Step.named round.later name s.watcher))
            (λ e h. discovered-unknown round.later name s.watcher e unknown h)

  refreshing-IsDriven :
      (round : Round sys h) (what : Refresh) (s : Watching sys h)
      → IsDriven s
      → IsDriven (refreshing sys h round what s)
  unfolding refreshing
  refreshing-IsDriven round what s d =
      let r = refresh-Refreshed sys.HopError h round.api round.later what s.watcher in
      let (w, sent) = refresh sys.HopError h round.api round.later what s.watcher in
      record {
        reached = r.reached d.reached;
        mine =
            subst (λ (o : Option Text). All (Mine o) (s.updates ++ sent)) (sym r.cluster_kept)
              (All-append (Mine s.watcher.cluster) s.updates sent d.mine r.mine);
        wired = λ cluster e. d.wired cluster (sym r.cluster_kept ∙ e);
      }

  hear-IsDriven :
      (round : Round sys h) (got : Waited) (s : Watching sys h)
      → IsDriven s
      → IsDriven (hear sys h round got s)
  unfolding hear
  hear-IsDriven round (heard (Heard.event topic)) s d =
      stepped-IsDriven s ((event round.grant round.later topic s.watcher).0) s.running d
        (Reachable.stepped d.reached (Steps.Step.told round.grant round.later topic s.watcher))
        (event-cluster round.grant round.later topic s.watcher)
  hear-IsDriven round (heard Heard.lost) s d =
      stepped-IsDriven s (lost s.watcher) s.running d
        (Reachable.stepped d.reached (Steps.Step.cut s.watcher)) (lost-cluster s.watcher)
  hear-IsDriven round timeout s d = d
  hear-IsDriven round disconnected s d = stepped-IsDriven s s.watcher false d d.reached refl

  -- The action that `next` asks for, by what the watcher knows.
  due-IsDriven :
      (round : Round sys h) (now : ℕ) (o : Option ℕ) (w : Watcher) (s : Watching sys h)
      → IsDriven s
      → IsDriven (act sys h round ((next_due now o w).1) s)
  unfolding next_due take_pending act
  due-IsDriven round now none w s d = hear-IsDriven round (waited sys h round none) s d
  due-IsDriven round now (some t) w s d = elim (Bool-cases (leb t now)) [
    | inl due ↦
        rw (due, next_due)
          (refreshing-IsDriven round (if w.full then Refresh.full else Refresh.jobs w.jobs) s d)
    | inr early ↦ rw (early, next_due) (hear-IsDriven round (waited sys h round (some t)) s d)
  ]

  unnamed-IsDriven :
      (round : Round sys h) (b : Bool) (t : ℕ) (s : Watching sys h)
      → s.watcher.cluster ≡ none
      → IsDriven s
      → IsDriven (act sys h round (if b then Action.discover else Action.wait (some t)) s)
  unfolding act
  unnamed-IsDriven round true t s unknown d = discover-IsDriven round s unknown d
  unnamed-IsDriven round false t s unknown d = hear-IsDriven round (waited sys h round (some t)) s d

  turn-IsDriven :
      (round : Round sys h) (s : Watching sys h) → IsDriven s → IsDriven (turn sys h round s)
  unfolding turn
  turn-IsDriven round s d =
      let w = (next round.now s.watcher).0 in
      let same = next-cluster round.now s.watcher in
      let s' : Watching sys h = record s { watcher = w } in
      let d' : IsDriven s' =
        stepped-IsDriven s w s.running d
          (Reachable.stepped d.reached (Steps.Step.asked round.now s.watcher)) same in
      elim (Option-cases s.watcher.cluster) [
        | inl unknown ↦
            subst (λ (a : Action). IsDriven (act sys h round a s'))
              (sym (next-unknown round.now s.watcher unknown))
              (unnamed-IsDriven round (leb s.watcher.retry_at round.now) s.watcher.retry_at s'
                (same ∙ unknown) d')
        | inr (name, known) ↦
            subst (λ (a : Action). IsDriven (act sys h round a s'))
              (sym (next-known round.now s.watcher name known))
              (due-IsDriven round round.now s.watcher.due s.watcher s' d')
      ]

  watched-IsDriven :
      (rounds : List (Round sys h)) (s : Watching sys h)
      → IsDriven s
      → IsDriven (watch sys h rounds s)
  unfolding watch
  watched-IsDriven [] s d = d
  watched-IsDriven (round ∷ rounds) s d = elim (Bool-cases s.running) [
    | inl runs ↦
        rw (runs, watch) (watched-IsDriven rounds (turn sys h round s) (turn-IsDriven round s d))
    | inr ended ↦ rw (ended, watch) d
  ]

  -- After any rounds of the watcher thread of an endpoint, its watcher is one that steps of the
  -- state machine lead to from a new one, each message it sent is of the cluster that the watcher
  -- knows and has a sorted image, and its reader was taken if a cluster is known.
  pub watch-IsDriven :
      (endpoint : Text) (rounds : List (Round sys h))
      → IsDriven (watch sys h rounds (begin sys h endpoint))
  watch-IsDriven endpoint rounds =
      watched-IsDriven rounds (begin sys h endpoint) (begin-IsDriven endpoint)
