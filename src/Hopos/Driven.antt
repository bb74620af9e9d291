-- ===== src/Hopos/Driven.antt =====
-- src/bin/hopdns-hopos.rs: the watcher task makes the steps of the state machine only, and posts messages
-- of its own cluster only.
use hopdns.Base.{
  ℕ, Bool, true, false, List, [], ◌∷◌, ◌++◌, Option, none, some, ◌≡◌, sym, ◌∙◌, subst, inl, inr,
  leb, All, All-append, if◌then◌else◌, Bool-cases, Option-cases,
}
use hopdns.Host.{Outcome, fine, fault}
use hopdns.Host.Refreshes.{Mine, unsent}
use hopdns.Hopos.{Resident}
use hopdns.Hopos.Refreshes.{refresh-Refreshed}
use hopdns.Hopos.Watch.{
  Heard, refresh, Round, Watching, begin, discover, refreshing, waited, hear, act, turn, watch,
}
use hopdns.Text.{Text}
use hopdns.Watcher.{
  Watcher, Action, Refresh, next, next_due, take_pending, discovered, discover_failed, event, lost,
}
use hopdns.Watcher.Actions.{
  next-cluster, event-cluster, discover_failed-cluster, lost-cluster, next-unknown, next-known,
}
use hopdns.Watcher.Build.{Hoplib, Local}
use hopdns.Watcher.Steps
use hopdns.Watcher.Steps.{Reachable}

module _ (sys : Resident) (h : Hoplib) (here : Option Local) where
  -- What holds of the task between two turns.
  pub record IsDriven (s : Watching sys h) : Type 0 where
    pub reached : Reachable s.watcher
    pub mine : All (Mine s.watcher.cluster) s.updates

  stepped-IsDriven :
      (s : Watching sys h) (w : Watcher)
      → IsDriven s
      → Reachable w
      → w.cluster ≡ s.watcher.cluster
      → IsDriven (record s { watcher = w })
  stepped-IsDriven s w d r same = record {
    reached = r;
    mine = subst (λ (o : Option Text). All (Mine o) s.updates) (sym same) d.mine;
  }

  discover-IsDriven :
      (round : Round sys h) (s : Watching sys h)
      → s.watcher.cluster ≡ none
      → IsDriven s
      → IsDriven (discover sys h round s)
  unfolding discover
  discover-IsDriven round s unknown d = go round.api.status
    where
      go :
          (x : Outcome sys.NetError Text)
          → IsDriven (elim x as (λ _. Watching sys h) [
            | fine name ↦ record s { watcher = (discovered round.later name s.watcher).0 }
            | fault _ ↦ record s { watcher = discover_failed round.later s.watcher }
          ])
      go (fine name) = record {
        reached = Reachable.stepped d.reached (Steps.Step.named round.later name s.watcher);
        mine =
            unsent s.updates ((discovered round.later name s.watcher).0.cluster)
              (subst (λ (x : Option Text). All (Mine x) s.updates) unknown d.mine);
      }
      go (fault _) =
          stepped-IsDriven s (discover_failed round.later s.watcher) d
            (Reachable.stepped d.reached (Steps.Step.unnamed round.later s.watcher))
            (discover_failed-cluster round.later s.watcher)

  refreshing-IsDriven :
      (round : Round sys h) (what : Refresh) (s : Watching sys h)
      → IsDriven s
      → IsDriven (refreshing sys h here round what s)
  unfolding refreshing
  refreshing-IsDriven round what s d =
      let (w, posted) = refresh sys h round.api round.later here what s.watcher in
      let r = refresh-Refreshed sys h here round.api round.later what s.watcher in
      record {
        reached = r.reached d.reached;
        mine =
            subst (λ (o : Option Text). All (Mine o) (s.updates ++ posted)) (sym r.cluster_kept)
              (All-append (Mine s.watcher.cluster) s.updates posted d.mine r.mine);
      }

  hear-IsDriven :
      (round : Round sys h) (got : Option Heard) (s : Watching sys h)
      → IsDriven s
      → IsDriven (hear sys h round got s)
  unfolding hear
  hear-IsDriven round (some (Heard.event topic)) s d =
      stepped-IsDriven s ((event round.grant round.later topic s.watcher).0) d
        (Reachable.stepped d.reached (Steps.Step.told round.grant round.later topic s.watcher))
        (event-cluster round.grant round.later topic s.watcher)
  hear-IsDriven round (some Heard.lost) s d =
      stepped-IsDriven s (lost s.watcher) d (Reachable.stepped d.reached (Steps.Step.cut s.watcher))
        (lost-cluster s.watcher)
  hear-IsDriven round none s d = d

  due-IsDriven :
      (round : Round sys h) (now : ℕ) (o : Option ℕ) (w : Watcher) (s : Watching sys h)
      → IsDriven s
      → IsDriven (act sys h here round ((next_due now o w).1) s)
  unfolding next_due take_pending act
  due-IsDriven round now none w s d = hear-IsDriven round (waited sys h round none) s d
  due-IsDriven round now (some t) w s d = elim (Bool-cases (leb t now)) [
    | inl due ↦
        rw (due, next_due)
          (refreshing-IsDriven round (if w.full then Refresh.full else Refresh.jobs w.jobs) s d)
    | inr early ↦ rw (early, next_due) (hear-IsDriven round (waited sys h round (some t)) s d)
  ]

  unnamed-IsDriven :
      (round : Round sys h) (b : Bool) (t : ℕ) (s : Watching sys h)
      → s.watcher.cluster ≡ none
      → IsDriven s
      → IsDriven (act sys h here round (if b then Action.discover else Action.wait (some t)) s)
  unfolding act
  unnamed-IsDriven round true t s unknown d = discover-IsDriven round s unknown d
  unnamed-IsDriven round false t s unknown d = hear-IsDriven round (waited sys h round (some t)) s d

  turn-IsDriven :
      (round : Round sys h) (s : Watching sys h) → IsDriven s → IsDriven (turn sys h here round s)
  unfolding turn
  turn-IsDriven round s d =
      let w = (next round.now s.watcher).0 in
      let same = next-cluster round.now s.watcher in
      let s' : Watching sys h = record s { watcher = w } in
      let d' : IsDriven s' =
        stepped-IsDriven s w d (Reachable.stepped d.reached (Steps.Step.asked round.now s.watcher))
          same in
      elim (Option-cases s.watcher.cluster) [
        | inl unknown ↦
            subst (λ (a : Action). IsDriven (act sys h here round a s'))
              (sym (next-unknown round.now s.watcher unknown))
              (unnamed-IsDriven round (leb s.watcher.retry_at round.now) s.watcher.retry_at s'
                (same ∙ unknown) d')
        | inr (name, known) ↦
            subst (λ (a : Action). IsDriven (act sys h here round a s'))
              (sym (next-known round.now s.watcher name known))
              (due-IsDriven round round.now s.watcher.due s.watcher s' d')
      ]

  watched-IsDriven :
      (rounds : List (Round sys h)) (s : Watching sys h)
      → IsDriven s
      → IsDriven (watch sys h here rounds s)
  unfolding watch
  watched-IsDriven [] s d = d
  watched-IsDriven (round ∷ rounds) s d =
      watched-IsDriven rounds (turn sys h here round s) (turn-IsDriven round s d)

  -- After any rounds of the watcher task of an endpoint, its watcher is one that steps of the
  -- state machine lead to from a new one, and each message it posted is of the cluster that the
  -- watcher knows and has a sorted image.
  pub watch-IsDriven_task :
      (endpoint : Text) (rounds : List (Round sys h))
      → IsDriven (watch sys h here rounds (begin sys h endpoint))
  unfolding begin
  watch-IsDriven_task endpoint rounds =
      watched-IsDriven rounds (begin sys h endpoint)
        (record { reached = Reachable.begun endpoint; mine = tt })
