-- ===== src/Watcher/Valid.antt =====
-- The invariant of a watcher, and that every operation keeps it.
use hopdns.Base.{
  ℕ, ◌≤◌, Bool, true, false, List, [], ◌∷◌, ◌++◌, Option, none, some, ◌≡◌, ◌≢◌, refl, ap, ◌∙◌, ◌⊎◌,
  inl, inr, arith, leb, if◌then◌else◌, length, length-append, Bool-cases, Option-cases,
}
use hopdns.Errors.{Result, ok, err, out_of_memory}
use hopdns.Text.{Text, text_eq, is_empty, lowercase}
use hopdns.Text.Space.{trim}
use hopdns.Text.Order.{text_eq_iff, text_eq_refl}
use hopdns.Watcher.{
  Refresh, Topic, Kind, classify, Watcher, new, next, next_due, take_pending, discovered,
  discover_failed, contains_name, get_or_insert, saturating_add, pend_full, pend_job, event,
  event_kind, lost, refresh_failed,
}

-- No name stands twice.
abbrev pub DistinctNames : List Text → Type 0
DistinctNames [] = Unit
DistinctNames (x ∷ xs) = (contains_name xs x ≡ false) × DistinctNames xs

-- Something waits to be refreshed.
abbrev pub Pending : Bool → List Text → Type 0
Pending f names = (f ≡ true) ⊎ (names ≢ [])

-- The list is short and has each name once; a full refresh stands alone; a refresh is due exactly when
-- something waits for it.
pub record IsValid (w : Watcher) : Type 0 where
  pub few : length w.jobs ≤ 32
  pub distinct : DistinctNames w.jobs
  pub alone : w.full ≡ true → w.jobs ≡ []
  pub idle : w.due ≡ none → (w.full ≡ false) × (w.jobs ≡ [])
  pub busy : (t : ℕ) → w.due ≡ some t → Pending w.full w.jobs

pub new-IsValid : (endpoint : Text) → IsValid (new endpoint)
unfolding new
new-IsValid endpoint = record {
  few = omega arith;
  distinct = tt;
  alone = λ h. refl;
  idle = λ h. (refl, refl);
  busy = λ t h. absurd (cc);
}

-- Nothing waits.
idle-IsValid : (w : Watcher) → IsValid (record w { due = none; full = false; jobs = [] })
idle-IsValid w = record {
  few = omega arith;
  distinct = tt;
  alone = λ h. refl;
  idle = λ h. (refl, refl);
  busy = λ t h. absurd (cc);
}

-- A full refresh waits.
full-IsValid : (w : Watcher) (t : ℕ) → IsValid (record w { due = some t; full = true; jobs = [] })
full-IsValid w t = record {
  few = omega arith;
  distinct = tt;
  alone = λ h. refl;
  idle = λ h. absurd (cc);
  busy = λ t h. inl refl;
}

pub get_or_insert-some : (o : Option ℕ) (t : ℕ) → (d : ℕ) × (get_or_insert o t ≡ some d)
get_or_insert-some none t = (t, refl)
get_or_insert-some (some d) t = (d, refl)

pub pend_full-IsValid : (now : ℕ) (w : Watcher) → IsValid (pend_full now w)
unfolding pend_full
pend_full-IsValid now w =
    let (d, e) = get_or_insert-some w.due (saturating_add now w.debounce) in
    rw (e, pend_full) (full-IsValid w d)

pub contains_name-concat :
    (xs : List Text) (x t : Text)
    → contains_name (xs ++ x ∷ []) t ≡ (if contains_name xs t then true else text_eq x t)
unfolding contains_name
contains_name-concat [] x t = ground arith
contains_name-concat (y ∷ ys) x t = ground (arith, contains_name-concat ys x t)

DistinctNames-concat :
    (xs : List Text) (x : Text)
    → DistinctNames xs
    → contains_name xs x ≡ false
    → DistinctNames (xs ++ x ∷ [])
unfolding contains_name
DistinctNames-concat [] x d h = (refl, tt)
DistinctNames-concat (y ∷ ys) x d h = (
  ground (arith, contains_name-concat ys x y, text_eq_iff x y, text_eq_iff y x, text_eq_refl y),
  DistinctNames-concat ys x (d.1) (ground arith),
)

concat_nonempty : {A : Type 0} (xs : List A) (x : A) → (xs ++ x ∷ []) ≢ []
concat_nonempty {A} xs x h =
    let e = ap length h ∙ refl in omega (arith, e, length-append xs (x ∷ []))

contains_name-nonempty : (xs : List Text) (x : Text) → contains_name xs x ≡ true → xs ≢ []
unfolding contains_name
contains_name-nonempty [] x h = cc
contains_name-nonempty (y ∷ ys) x h = λ e. cc

pub pend_job-IsValid :
    (now : ℕ) (name : Text) (w : Watcher)
    → w.full ≡ false
    → IsValid w
    → IsValid (pend_job now name w)
unfolding pend_job
pend_job-IsValid now name w part v =
    let (d, e) = get_or_insert-some w.due (saturating_add now w.debounce) in
    elim (Bool-cases (contains_name w.jobs name)) [
      | inl known ↦
          rw (known, pend_job)
            (rw e (record {
              few = v.few;
              distinct = v.distinct;
              alone = v.alone;
              idle = λ h. absurd (cc);
              busy = λ t h. inr (contains_name-nonempty w.jobs name known);
            }))
      | inr fresh ↦
          rw (fresh, pend_job)
            (elim (Bool-cases (leb 32 (length w.jobs))) [
              | inl many ↦ rw many (pend_full-IsValid now w)
              | inr free ↦ rw free (
                  rw e (record {
                    few = ground (arith, length-append w.jobs (name ∷ []));
                    distinct = DistinctNames-concat w.jobs name v.distinct fresh;
                    alone = λ h. absurd (cc);
                    idle = λ h. absurd (cc);
                    busy = λ t h. inr (concat_nonempty w.jobs name);
                  }))
            ])
    ]

next_due-IsValid :
    (now : ℕ) (o : Option ℕ) (w : Watcher) → IsValid w → IsValid ((next_due now o w).0)
unfolding next_due take_pending
next_due-IsValid now none w v = v
next_due-IsValid now (some t) w v = elim (Bool-cases (leb t now)) [
  | inl reached ↦ rw (reached, next_due) (idle-IsValid w)
  | inr early ↦ rw (early, next_due) v
]

pub next-IsValid : (now : ℕ) (w : Watcher) → IsValid w → IsValid ((next now w).0)
unfolding next
next-IsValid now w v = elim (Option-cases w.cluster) [
  | inl unknown ↦ rw (unknown, next) v
  | inr (name, known) ↦ rw (known, next) (next_due-IsValid now w.due w v)
]

-- The fields that the invariant reads are as they were.
retimed-IsValid :
    (w : Watcher) (cluster : Option Text) (at : ℕ)
    → IsValid w
    → IsValid (record w { cluster = cluster; retry_at = at })
retimed-IsValid w cluster at v = record {
  few = v.few;
  distinct = v.distinct;
  alone = v.alone;
  idle = v.idle;
  busy = v.busy;
}

pub discovered-IsValid :
    (now : ℕ) (name : Text) (w : Watcher) → IsValid w → IsValid ((discovered now name w).0)
unfolding discovered discover_failed
discovered-IsValid now name w v = elim (Bool-cases (is_empty (trim name))) [
  | inl empty ↦
      rw (empty, discovered) (retimed-IsValid w w.cluster (saturating_add now w.interval) v)
  | inr full ↦ rw (full, discovered) (retimed-IsValid w (some (lowercase (trim name))) w.retry_at v)
]

pub discover_failed-IsValid : (now : ℕ) (w : Watcher) → IsValid w → IsValid (discover_failed now w)
unfolding discover_failed
discover_failed-IsValid now w v = retimed-IsValid w w.cluster (saturating_add now w.interval) v

if-IsValid :
    (c : Bool) (p p' : Watcher × Result (Unit {0}))
    → (c ≡ true → IsValid (p.0))
    → (c ≡ false → IsValid (p'.0))
    → IsValid ((if c then p else p').0)
if-IsValid true p p' v v' = v refl
if-IsValid false p p' v v' = v' refl

event_kind-IsValid :
    (grant : Bool) (now : ℕ) (k : Kind) (w : Watcher)
    → IsValid w
    → IsValid ((event_kind grant now k w).0)
unfolding event_kind
event_kind-IsValid grant now Kind.seed w v = full-IsValid w now
event_kind-IsValid grant now Kind.full w v = pend_full-IsValid now w
event_kind-IsValid grant now Kind.ignore w v = v
event_kind-IsValid grant now (Kind.job name) w v =
    if-IsValid w.full (w, ok tt) _ (λ _. v)
      (λ part.
        if-IsValid grant (pend_job now (lowercase name) w, ok tt) (w, err out_of_memory)
          (λ _. pend_job-IsValid now (lowercase name) w part v) (λ _. v))

pub event-IsValid :
    (grant : Bool) (now : ℕ) (topic : Option Topic) (w : Watcher)
    → IsValid w
    → IsValid ((event grant now topic w).0)
unfolding event
event-IsValid grant now topic w v = event_kind-IsValid grant now (classify topic) w v

pub lost-IsValid : (w : Watcher) → IsValid (lost w)
unfolding lost
lost-IsValid w = idle-IsValid w

pub refresh_failed-IsValid :
    (now : ℕ) (what : Refresh) (w : Watcher) → IsValid (refresh_failed now what w)
unfolding refresh_failed
refresh_failed-IsValid now what w = full-IsValid w _
