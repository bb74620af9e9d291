-- ===== src/Watcher/Actions.antt =====
-- src/watcher.rs: which action `next` asks for, and that only `discovered` changes the cluster.
use hopdns.Base.{
  ℕ, Bool, true, false, Option, none, some, ◌≡◌, refl, ap, ◌∙◌, inl, inr, leb, arith, if◌then◌else◌,
  Bool-cases, Option-cases,
}
use hopdns.Errors.{Error, Result, ok, err, no_cluster_name}
use hopdns.Text.{Text, is_empty, lowercase}
use hopdns.Text.Space.{trim}
use hopdns.Watcher.{
  Watcher, Action, Topic, Kind, next, next_due, take_pending, discovered, discover_failed, event,
  event_kind, classify, pend_job, pend_full, lost,
}

next_due-cluster : (now : ℕ) (o : Option ℕ) (w : Watcher) → (next_due now o w).0.cluster ≡ w.cluster
unfolding next_due take_pending
next_due-cluster now none w = refl
next_due-cluster now (some t) w = elim (Bool-cases (leb t now)) [
  | inl reached ↦ rw (reached, next_due) refl
  | inr early ↦ rw (early, next_due) refl
]

pub next-cluster : (now : ℕ) (w : Watcher) → (next now w).0.cluster ≡ w.cluster
unfolding next
next-cluster now w = elim (Option-cases w.cluster) [
  | inl unknown ↦ rw (unknown, next) unknown
  | inr (name, known) ↦ rw (known, next) (next_due-cluster now w.due w ∙ known)
]

pub event-cluster :
    (grant : Bool) (now : ℕ) (topic : Option Topic) (w : Watcher)
    → (event grant now topic w).0.cluster ≡ w.cluster
unfolding event event_kind pend_job pend_full
event-cluster grant now topic w = go (classify topic)
  where
    pended : (name : Text) → (pend_job now name w).cluster ≡ w.cluster
    pended name = ground arith

    go : (k : Kind) → (event_kind grant now k w).0.cluster ≡ w.cluster
    go Kind.seed = refl
    go Kind.full = refl
    go (Kind.job name) = ground arith
    go Kind.ignore = refl

pub discover_failed-cluster : (now : ℕ) (w : Watcher) → (discover_failed now w).cluster ≡ w.cluster
unfolding discover_failed
discover_failed-cluster now w = refl

pub lost-cluster : (w : Watcher) → (lost w).cluster ≡ w.cluster
unfolding lost
lost-cluster w = refl

pub discovered-unknown :
    (now : ℕ) (name : Text) (w : Watcher) (e : Error)
    → w.cluster ≡ none
    → (discovered now name w).1 ≡ err e
    → (discovered now name w).0.cluster ≡ none
unfolding discovered discover_failed
discovered-unknown now name w e unknown failed = go (is_empty (trim name)) failed
  where
    go :
        (b : Bool)
        → (if◌then◌else◌ {A = Watcher × Result (Unit {0})} b
            (discover_failed now w, err no_cluster_name)
            (record w { cluster = some (lowercase (trim name)) }, ok tt)).1
          ≡ err e
        → (if◌then◌else◌ {A = Watcher × Result (Unit {0})} b
            (discover_failed now w, err no_cluster_name)
            (record w { cluster = some (lowercase (trim name)) }, ok tt)).0.cluster
          ≡ none
    go true h = unknown
    go false h = cc

pub next-unknown :
    (now : ℕ) (w : Watcher)
    → w.cluster ≡ none
    → (next now w).1
      ≡ (if leb w.retry_at now then Action.discover else Action.wait (some w.retry_at))
unfolding next
next-unknown now w unknown = rw (unknown, next) refl

pub next-known :
    (now : ℕ) (w : Watcher) (name : Text)
    → w.cluster ≡ some name
    → (next now w).1 ≡ (next_due now w.due w).1
unfolding next
next-known now w name known =
    ap
      (λ (o : Option Text).
        (elim o as (λ _. Watcher × Action) [
          | none ↦
              (w, if leb w.retry_at now then Action.discover else Action.wait (some w.retry_at))
          | some _ ↦ next_due now w.due w
        ]).1)
      known
