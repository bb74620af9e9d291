-- ===== src/Tests/Watchers.antt =====
-- src/watcher.rs: a watcher that knows its cluster, and a small cluster.
use hopdns.Base.{Bool, true, List, [], ◌∷◌, Option, none, some, ◌≡◌, refl}
use hopdns.Cache.{get_cluster}
use hopdns.Errors.{ok}
use hopdns.Table
use hopdns.Text.{Text, codes, is_empty, lowercase, to_ascii_lowercase}
use hopdns.Text.Space
use hopdns.Watcher.{Watcher, new, Topic, Update, event, discovered, apply}
use hopdns.Watcher.Build.{ℤ, Hoplib, build_jobs, build_job, refreshed_full}
use hopdns.Watcher.Build.Agree.{row_of, get-build_jobs}
use hopdns.Watcher.Refreshed.{get_cluster-refreshed_full}
use hopdns.Watcher.Steps
use hopdns.Watcher.Steps.{Reachable, Reachable-IsValid}
use hopdns.Watcher.Valid.{IsValid}
use hopdns.Tests.Caches.{two_clusters, two_clusters-IsValid}

-- The watcher after its name was found, and after two events.
abbrev pub found : Watcher
found = (discovered 10 (codes " East ") (new (codes "http://10.0.0.1:7000"))).0

found-Reachable : Reachable found
found-Reachable =
    Reachable.stepped (Reachable.begun (codes "http://10.0.0.1:7000"))
      (Steps.Step.named 10 (codes " East ") (new (codes "http://10.0.0.1:7000")))

pub found_cluster : found.cluster ≡ some (codes "east")
unfolding discovered new Space.trim lowercase to_ascii_lowercase is_empty
found_cluster = refl

abbrev told : Watcher
told = (event true 20 (some (Topic.task (codes "Web"))) found).0

Reachable-IsValid_example : IsValid told
Reachable-IsValid_example = Reachable-IsValid (
    Reachable.stepped found-Reachable
      (Steps.Step.told true 20 (some (Topic.task (codes "Web"))) found))

-- Agents are an id and an endpoint; a task is whether it runs, its driver, its pid and its job.
abbrev pub sample_hoplib : Hoplib
sample_hoplib = record {
  AgentInfo = Text × Text;
  id = λ a. a.0;
  endpoint = λ a. a.1;
  Task = Bool × Text × ℤ × Text;
  is_running = λ t. t.0;
  driver = λ t. t.1;
  pid = λ t. t.2;
  job_name = λ t. t.3;
  AgentTasks = Text × Option (List (Bool × Text × ℤ × Text));
  agent = λ a. a.0;
  tasks = λ a. a.1;
}

abbrev pub agents : List (Text × Text)
agents =
    (codes "n1", codes "http://10.0.0.1:7000") ∷ (codes "n2", codes "http://10.0.0.2:7000") ∷ []

abbrev pub tasks : List (Text × Option (List (Bool × Text × ℤ × Text)))
tasks =
    (codes "n1", some ((true, codes "docker", ℤ.pos 77, codes "Web") ∷ []))
    ∷ (codes "n2", some ((true, codes "docker", ℤ.pos 78, codes "web") ∷ []))
    ∷ []

get-build_jobs_example :
    Table.get (lowercase (codes "Web")) (build_jobs sample_hoplib agents tasks none)
    ≡ row_of (build_job sample_hoplib (codes "Web") agents tasks none)
get-build_jobs_example = get-build_jobs sample_hoplib (codes "Web") agents tasks none

get_cluster-refreshed_full_example :
    (u : Update) × (refreshed_full sample_hoplib agents tasks none found ≡ ok u)
    × (get_cluster (apply true u two_clusters).0 (codes "east") (lowercase (codes "web"))
        ≡ row_of (build_job sample_hoplib (codes "web") agents tasks none))
get_cluster-refreshed_full_example =
    get_cluster-refreshed_full sample_hoplib (codes "web") (codes "east") agents tasks none found
      two_clusters found_cluster two_clusters-IsValid
