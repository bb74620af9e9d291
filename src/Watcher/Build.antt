-- ===== src/Watcher/Build.antt =====
-- src/watcher.rs: the image of a cluster from its agents and their tasks.
pub mod Agree
use hopdns.Base.{
  ℕ, zero, suc, ◌+◌, ◌-◌, ◌*◌, Bool, true, false, not, ◌&&◌, ◌||◌, List, [], ◌∷◌, ◌++◌, Option,
  none, some, leb, ltb, ◌==◌, if◌then◌else◌, length, ◌>>=◌,
}
use hopdns.Cache.{Ip, Jobs, contains}
use hopdns.Errors.{Result, ok, err, no_cluster_name}
use hopdns.Table
use hopdns.Text.{
  Text, codes, text_eq, is_empty, lowercase, eq_ignore_ascii_case, strip_prefix, rsplit_once,
  split_pieces, split,
}
use hopdns.Watcher.{Watcher, Update}

-- `core::net::Ipv4Addr::from_str`: one decimal number of at most three digits, with no zero in front.
unfoldable pub octet_value : ℕ → Text → Option ℕ
octet_value n [] = if ltb n 256 then some n else none
octet_value n (c ∷ t) =
    let rest = octet_value (n * 10 + (c - b'0')) t in
    if leb b'0' c && leb c b'9' then rest else none

unfoldable pub leading_zero : Text → Bool
leading_zero [] = false
leading_zero (c ∷ []) = false
leading_zero (c ∷ d ∷ t) = c == b'0'

unfoldable pub parse_octet : Text → Option ℕ
parse_octet t = if is_empty t || ltb 3 (length t) || leading_zero t then none else octet_value 0 t

unfoldable pub parse_ipv4 : List Text → Option Ip
parse_ipv4 (a ∷ b ∷ c ∷ d ∷ []) = do
  w ← parse_octet a
  x ← parse_octet b
  y ← parse_octet c
  z ← parse_octet d
  some (((w * 256 + x) * 256 + y) * 256 + z)
parse_ipv4 _ = none

-- `split_once("://")`, the part behind it.
unfoldable pub behind_scheme : Text → Option Text
behind_scheme [] = none
behind_scheme (c ∷ t) =
    let rest = behind_scheme t in
    elim (strip_prefix (c ∷ t) (codes "://")) [ some r ↦ some r | none ↦ rest ]

unfoldable pub extract_ip : Text → Option Ip
extract_ip endpoint = do
  rest ← behind_scheme endpoint
  let authority = (split_pieces (λ c. c == b'/' || c == b'?' || c == b'#') rest).0 in
      let host : Text = elim (rsplit_once b'@' authority) [ some (_, h) ↦ h | none ↦ authority ] in
      let bare = (split_pieces (λ c. c == b':') host).0 in parse_ipv4 (split (λ c. c == b'.') bare)

-- A process id, an `i64`.
pub data ℤ : Type 0 where
  pos : ℕ → ℤ
  negsuc : ℕ → ℤ

-- `(1..=SLOT_MAX).contains(&pid)`, and then `pid.unsigned_abs()`.
unfoldable pub slot_of : ℤ → Option ℕ
slot_of (pos n) = if leb 1 n && leb n 255 then some n else none
slot_of (negsuc n) = none

-- What the source reads of hoplib's `AgentInfo`, `AgentTasks` and `Task`.
pub record Hoplib : Type 1 where
  pub AgentInfo : Type 0
  pub id : AgentInfo → Text
  pub endpoint : AgentInfo → Text
  pub Task : Type 0
  pub is_running : Task → Bool
  pub driver : Task → Text
  pub pid : Task → ℤ
  pub job_name : Task → Text
  pub AgentTasks : Type 0
  pub agent : AgentTasks → Text
  pub tasks : AgentTasks → Option (List Task)

pub record Local : Type 0 where
  pub node : Text
  pub slot_ip : ℕ → Ip

unfoldable pub push_unique : List Ip → Ip → List Ip
push_unique list ip = if not (contains list ip) then list ++ ip ∷ [] else list

-- `unwrap_or_default`.
abbrev pub or_default : {A : Type 0} → Option (List A) → List A
or_default none = []
or_default (some xs) = xs

module _ (h : Hoplib) where
  -- The slot's own address, where the task is one of this node.
  unfoldable pub slot_address : Text → h.Task → Option Local → Option Ip
  slot_address agent task none = none
  slot_address agent task (some l) =
      if text_eq l.node agent && text_eq (h.driver task) (codes "hop")
      then elim (slot_of (h.pid task)) [ some pid ↦ some (l.slot_ip pid) | none ↦ none ]
      else none

  unfoldable pub task_ip : Text → Option Ip → h.Task → Option Local → Option Ip
  task_ip agent agent_ip task here =
      if not (h.is_running task)
      then none
      else elim (slot_address agent task here) [ some ip ↦ some ip | none ↦ agent_ip ]

  unfoldable pub agent_ip : List h.AgentInfo → Text → Option Ip
  agent_ip [] id = none
  agent_ip (a ∷ agents) id =
      if text_eq (h.id a) id then extract_ip (h.endpoint a) else agent_ip agents id

  -- One address of a job: pushed to its list, or the first of a new one.
  unfoldable pub add_address : Text → Ip → Jobs → Jobs
  add_address name addr jobs = elim (Table.get name jobs) [
    | some _ ↦ Table.modify name (λ list. push_unique list addr) jobs
    | none ↦ (Table.insert true name (push_unique [] addr) jobs).0
  ]

  -- The inner loop of `build_jobs`, and the outer one.
  unfoldable pub add_tasks : Text → Option Ip → Option Local → List h.Task → Jobs → Jobs
  add_tasks agent ip here [] jobs = jobs
  add_tasks agent ip here (task ∷ rest) jobs =
      add_tasks agent ip here rest (elim (task_ip agent ip task here) [
        | none ↦ jobs
        | some addr ↦ add_address (lowercase (h.job_name task)) addr jobs
      ])

  unfoldable pub add_agents : List h.AgentInfo → Option Local → List h.AgentTasks → Jobs → Jobs
  add_agents agents here [] jobs = jobs
  add_agents agents here (at ∷ rest) jobs =
      add_agents agents here rest
        (add_tasks (h.agent at) (agent_ip agents (h.agent at)) here (or_default (h.tasks at)) jobs)

  unfoldable pub build_jobs : List h.AgentInfo → List h.AgentTasks → Option Local → Jobs
  build_jobs agents tasks here = add_agents agents here tasks Table.new

  -- The same loops of `build_job`.
  unfoldable pub add_job_tasks :
      Text → Text → Option Ip → Option Local → List h.Task → List Ip → List Ip
  add_job_tasks job agent ip here [] ips = ips
  add_job_tasks job agent ip here (task ∷ rest) ips = add_job_tasks job agent ip here rest (
      if not (eq_ignore_ascii_case (h.job_name task) job)
      then ips
      else elim (task_ip agent ip task here) [ some addr ↦ push_unique ips addr | none ↦ ips ])

  unfoldable pub add_job_agents :
      Text → List h.AgentInfo → Option Local → List h.AgentTasks → List Ip → List Ip
  add_job_agents job agents here [] ips = ips
  add_job_agents job agents here (at ∷ rest) ips = add_job_agents job agents here rest (
      add_job_tasks job (h.agent at) (agent_ip agents (h.agent at)) here (or_default (h.tasks at))
        ips)

  unfoldable pub build_job : Text → List h.AgentInfo → List h.AgentTasks → Option Local → List Ip
  build_job job agents tasks here = add_job_agents job agents here tasks []

  -- What came in, as a message to the owner of the cache; only a watcher that knows its cluster gives one.
  unfoldable pub refreshed_full :
      List h.AgentInfo → List h.AgentTasks → Option Local → Watcher → Result Update
  refreshed_full agents tasks here w = elim (w.cluster) [
    | none ↦ err no_cluster_name
    | some cluster ↦ ok (Update.replace cluster (build_jobs agents tasks here))
  ]

  unfoldable pub refreshed_job :
      Text → List h.AgentInfo → List h.AgentTasks → Option Local → Watcher → Result Update
  refreshed_job job agents tasks here w = elim (w.cluster) [
    | none ↦ err no_cluster_name
    | some cluster ↦ ok (Update.set cluster (lowercase job) (build_job job agents tasks here))
  ]
