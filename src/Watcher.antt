-- ===== src/Watcher.antt =====
-- src/watcher.rs: the watcher of one peer, a state machine that is told the time and the events.
pub mod Build
pub mod Valid
pub mod Steps
pub mod Refreshed
pub mod Actions
use hopdns.Base.{
  ℕ, zero, suc, ◌+◌, ◌-◌, ◌*◌, ◌^◌, min, Bool, true, false, not, List, [], ◌∷◌, ◌++◌, Option, none,
  some, leb, ltb, if◌then◌else◌, length,
}
use hopdns.Cache
use hopdns.Cache.{Cache, Ip, Jobs}
use hopdns.Errors.{Error, Result, ok, err, out_of_memory, no_cluster_name}
use hopdns.Text.{Text, text_eq, is_empty, lowercase}
use hopdns.Text.Space.{trim}

-- In nanoseconds, as `nanos` gives them.
abbrev pub reconnect : ℕ
reconnect = 5000000000

abbrev pub debounce_time : ℕ
debounce_time = 500000000

abbrev pub max_pending : ℕ
max_pending = 32

-- `u64::saturating_add`.
abbrev pub saturating_add : ℕ → ℕ → ℕ
saturating_add a b = min (a + b) (2 ^ 64 - 1)

pub data Refresh : Type 0 where
  full : Refresh
  jobs : List Text → Refresh

pub data Action : Type 0 where
  discover : Action
  refresh : Refresh → Action
  wait : Option ℕ → Action

pub data Update : Type 0 where
  replace : Text → Jobs → Update
  set : Text → Text → List Ip → Update

-- `Update::apply` and `Update::cluster`; `grant` as in the cache.
unfoldable pub apply : Bool → Update → Cache → Cache × Result (Unit {0})
apply grant (Update.replace cluster image) c = Cache.update grant cluster image c
apply grant (Update.set cluster name ips) c = Cache.set grant cluster name ips c

unfoldable pub cluster_of : Update → Text
cluster_of (Update.replace cluster _) = cluster
cluster_of (Update.set cluster _ _) = cluster

-- What `Event::topic` of hoplib gives, as far as `classify` tells it apart.
pub data Topic : Type 0 where
  ping : Topic
  status : Topic
  agent : Topic
  job : Text → Topic
  task : Text → Topic
  other : Topic

pub data Kind : Type 0 where
  seed : Kind
  full : Kind
  job : Text → Kind
  ignore : Kind

-- An event is what its `topic()` gives; `none` is an event that does not read.
unfoldable pub classify : Option Topic → Kind
classify none = Kind.full
classify (some Topic.ping) = Kind.seed
classify (some Topic.status) = Kind.full
classify (some Topic.agent) = Kind.full
classify (some (Topic.job name)) = if not (is_empty name) then Kind.job name else Kind.ignore
classify (some (Topic.task name)) = if not (is_empty name) then Kind.job name else Kind.ignore
classify (some Topic.other) = Kind.ignore

pub record Watcher : Type 0 where
  pub endpoint : Text
  pub cluster : Option Text
  pub retry_at : ℕ
  pub due : Option ℕ
  pub full : Bool
  pub jobs : List Text
  pub interval : ℕ
  pub debounce : ℕ

unfoldable pub new : Text → Watcher
new endpoint = record {
  endpoint = endpoint;
  cluster = none;
  retry_at = 0;
  due = none;
  full = false;
  jobs = [];
  interval = reconnect;
  debounce = debounce_time;
}

-- A `Duration` is its nanoseconds, which may be more than a `u64` holds.
unfoldable pub nanos : ℕ → ℕ
nanos d = min d (2 ^ 64 - 1)

unfoldable pub with_interval : ℕ → Watcher → Watcher
with_interval d w = record w { interval = nanos d }

-- A refresh is due: what was pending is taken.
unfoldable pub take_pending : Watcher → Watcher × Action
take_pending w = (
  record w { due = none; full = false; jobs = [] },
  Action.refresh (if w.full then Refresh.full else Refresh.jobs w.jobs),
)

unfoldable pub next_due : ℕ → Option ℕ → Watcher → Watcher × Action
next_due now none w = (w, Action.wait none)
next_due now (some t) w = if leb t now then take_pending w else (w, Action.wait (some t))

unfoldable pub next : ℕ → Watcher → Watcher × Action
next now w = elim (w.cluster) [
  | none ↦ (w, if leb w.retry_at now then Action.discover else Action.wait (some w.retry_at))
  | some _ ↦ next_due now w.due w
]

unfoldable pub discover_failed : ℕ → Watcher → Watcher
discover_failed now w = record w { retry_at = saturating_add now w.interval }

unfoldable pub discovered : ℕ → Text → Watcher → Watcher × Result (Unit {0})
discovered now name w =
    let t = trim name in
    if is_empty t
    then (discover_failed now w, err no_cluster_name)
    else (record w { cluster = some (lowercase t) }, ok tt)

-- `due.get_or_insert(t)`.
abbrev pub get_or_insert : Option ℕ → ℕ → Option ℕ
get_or_insert none t = some t
get_or_insert (some d) t = some d

unfoldable pub pend_full : ℕ → Watcher → Watcher
pend_full now w = record w {
  full = true;
  jobs = [];
  due = get_or_insert w.due (saturating_add now w.debounce);
}

unfoldable pub contains_name : List Text → Text → Bool
contains_name [] t = false
contains_name (x ∷ xs) t = if text_eq x t then true else contains_name xs t

-- A job that is named by an event; `name` is in small letters.
unfoldable pub pend_job : ℕ → Text → Watcher → Watcher
pend_job now name w =
    let due' = get_or_insert w.due (saturating_add now w.debounce) in
    if contains_name w.jobs name
    then record w { due = due' }
    else if leb max_pending (length w.jobs)
    then pend_full now w
    else record w { jobs = w.jobs ++ name ∷ []; due = due' }

-- `grant` is whether the allocator gives the bytes of the name in small letters and its place.
unfoldable pub event_kind : Bool → ℕ → Kind → Watcher → Watcher × Result (Unit {0})
event_kind grant now Kind.seed w = (record w { full = true; jobs = []; due = some now }, ok tt)
event_kind grant now Kind.full w = (pend_full now w, ok tt)
event_kind grant now (Kind.job name) w =
    if w.full
    then (w, ok tt)
    else if grant
    then (pend_job now (lowercase name) w, ok tt)
    else (w, err out_of_memory)
event_kind grant now Kind.ignore w = (w, ok tt)

unfoldable pub event : Bool → ℕ → Option Topic → Watcher → Watcher × Result (Unit {0})
event grant now topic w = event_kind grant now (classify topic) w

unfoldable pub lost : Watcher → Watcher
lost w = record w { due = none; full = false; jobs = [] }

unfoldable pub retry_time : ℕ → Refresh → Watcher → ℕ
retry_time now Refresh.full w = saturating_add now w.interval
retry_time now (Refresh.jobs _) w = now

-- `due.map_or(at, |d| d.min(at))`.
abbrev pub earliest : Option ℕ → ℕ → ℕ
earliest none at = at
earliest (some d) at = min d at

unfoldable pub refresh_failed : ℕ → Refresh → Watcher → Watcher
refresh_failed now what w = record w {
  full = true;
  jobs = [];
  due = some (earliest w.due (retry_time now what w));
}
