-- ===== src/Watcher/Steps.antt =====
-- A watcher from its beginning on: the steps that the driver makes, and what holds after any of them.
use hopdns.Base.{ℕ, Bool, true, Option, some, ◌≡◌, ◌⊎◌}
use hopdns.Text.{Text}
use hopdns.Watcher.{
  Refresh, Topic, Watcher, new, next, discovered, discover_failed, contains_name, event, lost,
  refresh_failed,
}
use hopdns.Watcher.Valid.{
  IsValid, new-IsValid, next-IsValid, discovered-IsValid, discover_failed-IsValid, event-IsValid,
  lost-IsValid, refresh_failed-IsValid,
}

-- One call of the driver.
pub data Step : Watcher → Watcher → Type 0 where
  asked : (now : ℕ) (w : Watcher) → Step w ((next now w).0)
  named : (now : ℕ) (name : Text) (w : Watcher) → Step w ((discovered now name w).0)
  unnamed : (now : ℕ) (w : Watcher) → Step w (discover_failed now w)
  told :
      (grant : Bool) (now : ℕ) (topic : Option Topic) (w : Watcher)
      → Step w ((event grant now topic w).0)
  cut : (w : Watcher) → Step w (lost w)
  failed : (now : ℕ) (what : Refresh) (w : Watcher) → Step w (refresh_failed now what w)

-- What a driver can have in its hands.
pub data Reachable : Watcher → Type 0 where
  begun : (endpoint : Text) → Reachable (new endpoint)
  stepped : {w w' : Watcher} → Reachable w → Step w w' → Reachable w'

Step-IsValid : {w w' : Watcher} → Step w w' → IsValid w → IsValid w'
Step-IsValid (asked now w) v = next-IsValid now w v
Step-IsValid (named now name w) v = discovered-IsValid now name w v
Step-IsValid (unnamed now w) v = discover_failed-IsValid now w v
Step-IsValid (told grant now topic w) v = event-IsValid grant now topic w v
Step-IsValid (cut w) v = lost-IsValid w
Step-IsValid (failed now what w) v = refresh_failed-IsValid now what w

-- In every watcher that calls of the driver lead to from a new one, at most 32 jobs wait and none
-- twice, none waits beside a full refresh, and a time is due exactly when a full refresh or a job
-- waits.
pub Reachable-IsValid : {w : Watcher} → Reachable w → IsValid w
Reachable-IsValid (begun endpoint) = new-IsValid endpoint
Reachable-IsValid (stepped r s) = Step-IsValid s (Reachable-IsValid r)

-- A refresh that brings the job's addresses.
abbrev pub Covers : Refresh → Text → Type 0
Covers Refresh.full name = Unit
Covers (Refresh.jobs names) name = contains_name names name ≡ true

-- What waits is in the refresh: all of it, or this job.
abbrev Waits : Watcher → Text → Type 0
Waits w name = (w.full ≡ true) ⊎ (contains_name w.jobs name ≡ true)

-- What a named job leaves: it waits, at some time, in the same cluster.
record Named (w w' : Watcher) (name : Text) : Type 0 where
  time : ℕ
  due_is : w'.due ≡ some time
  waits : Waits w' name
  cluster_kept : w'.cluster ≡ w.cluster
