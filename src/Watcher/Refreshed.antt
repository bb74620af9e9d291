-- ===== src/Watcher/Refreshed.antt =====
-- What a refresh does to the cache that it is applied to.
use hopdns.Base.{true, List, Option, some, ◌≡◌, refl, ◌∙◌, if◌then◌else◌, ◌&&◌}
use hopdns.Cache.{Cache, get_cluster}
use hopdns.Cache.Laws.{IsValid, get_cluster-update, get_cluster-set}
use hopdns.Errors.{ok}
use hopdns.Text.{Text, text_eq, lowercase}
use hopdns.Text.Order.{text_eq_refl}
use hopdns.Watcher.{Watcher, Update, apply}
use hopdns.Watcher.Build.{Hoplib, Local, build_jobs, build_job, refreshed_full, refreshed_job}
use hopdns.Watcher.Build.Agree.{row_of, get-build_jobs}

-- For a watcher that knows its cluster and a valid cache, `refreshed_full` gives a message.
-- Applied with memory granted, it leaves for each job (in small letters) of that cluster the
-- addresses that `build_job` builds from the same state, and no row where there are none.
pub get_cluster-refreshed_full :
    (h : Hoplib) (job cluster : Text) (agents : List h.AgentInfo) (tasks : List h.AgentTasks)
    (here : Option Local) (w : Watcher) (c : Cache)
    → w.cluster ≡ some cluster
    → IsValid c
    → (u : Update) × (refreshed_full h agents tasks here w ≡ ok u)
      × (get_cluster ((apply true u c).0) cluster (lowercase job)
          ≡ row_of (build_job h job agents tasks here))
unfolding refreshed_full apply
get_cluster-refreshed_full h job cluster agents tasks here w c known v =
    let image = build_jobs h agents tasks here in
    (
      Update.replace cluster image,
      rw (known, refreshed_full) refl,
      get_cluster-update cluster image c cluster (lowercase job) v
          ∙ rw (text_eq_refl cluster) (get-build_jobs h job agents tasks here),
    )

-- For a watcher that knows its cluster and a valid cache, `refreshed_job` gives a message. Applied
-- with memory granted, it leaves for the job in small letters of that cluster the addresses that
-- `build_job` builds, and for every other pair what the cache had.
pub get_cluster-refreshed_job :
    (h : Hoplib) (job cluster : Text) (agents : List h.AgentInfo) (tasks : List h.AgentTasks)
    (here : Option Local) (w : Watcher) (c : Cache) (k j : Text)
    → w.cluster ≡ some cluster
    → IsValid c
    → (u : Update) × (refreshed_job h job agents tasks here w ≡ ok u)
      × (get_cluster ((apply true u c).0) k j ≡ (
          if text_eq cluster k && text_eq (lowercase job) j
          then some (build_job h job agents tasks here)
          else get_cluster c k j))
unfolding refreshed_job apply
get_cluster-refreshed_job h job cluster agents tasks here w c k j known v =
    let ips = build_job h job agents tasks here in
    (
      Update.set cluster (lowercase job) ips,
      rw (known, refreshed_job) refl,
      get_cluster-set cluster (lowercase job) ips c k j v,
    )
