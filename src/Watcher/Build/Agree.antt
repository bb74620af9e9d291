-- ===== src/Watcher/Build/Agree.antt =====
-- A full refresh and the refresh of one job give a job the same addresses.
use hopdns.Base.{
  true, false, not, List, [], ◌∷◌, Option, none, some, ◌≡◌, refl, sym, ◌∙◌, inl, inr, subst,
  Bool-cases, Option-cases, if◌then◌else◌,
}
use hopdns.Cache.{Ip, Jobs, contains}
use hopdns.Table
use hopdns.Table.{Table, IsSorted}
use hopdns.Table.Rows.{Ascending-put}
use hopdns.Table.Laws.{modify-put, get-put, get-insert, insert-IsSorted, get-new}
use hopdns.Text.{Text, text_eq, lowercase, eq_ignore_ascii_case}
use hopdns.Text.Order.{text_eq_iff, text_eq_refl}
use hopdns.Watcher.Build.{
  Hoplib, Local, push_unique, or_default, task_ip, agent_ip, add_address, add_tasks, add_agents,
  build_jobs, add_job_tasks, add_job_agents, build_job,
}

-- The row of a job with these addresses: none without an address.
abbrev pub row_of : List Ip → Option (List Ip)
row_of [] = none
row_of (ip ∷ ips) = some (ip ∷ ips)

row_of-push_unique :
    (ips : List Ip) (ip : Ip) → row_of (push_unique ips ip) ≡ some (push_unique ips ip)
unfolding push_unique contains
row_of-push_unique [] ip = refl
row_of-push_unique (x ∷ ips) ip = elim (Bool-cases (contains (x ∷ ips) ip)) [
  | inl old ↦ rw (old, push_unique) refl
  | inr new ↦ rw (new, push_unique) refl
]

-- The row of `job` is the row of these addresses, in a sorted table.
record Agrees (job : Text) (jobs : Jobs) (ips : List Ip) : Type 0 where
  sorted : IsSorted jobs
  row_is : Table.get job jobs ≡ row_of ips

module _ (h : Hoplib) where
  add_address-IsSorted :
      (name : Text) (addr : Ip) (jobs : Jobs)
      → IsSorted jobs
      → IsSorted (add_address h name addr jobs)
  unfolding add_address
  add_address-IsSorted name addr jobs s = elim (Option-cases (Table.get name jobs)) [
    | inl e ↦ rw (e, add_address) (insert-IsSorted true name (push_unique [] addr) jobs s)
    | inr (list, e) ↦
        rw (e, add_address)
          (rw (modify-put name (λ l. push_unique l addr) list jobs s e)
            (Ascending-put name (push_unique list addr) jobs.rows s))
  ]

  get-add_address_same :
      (name : Text) (addr : Ip) (jobs : Jobs) (ips : List Ip)
      → Agrees name jobs ips
      → Table.get name (add_address h name addr jobs) ≡ row_of (push_unique ips addr)
  unfolding add_address
  get-add_address_same name addr jobs [] a =
      rw (a.row_is, add_address)
        (rw (get-insert name name (push_unique [] addr) jobs a.sorted)
          (rw (text_eq_refl name) (sym (row_of-push_unique [] addr))))
  get-add_address_same name addr jobs (ip ∷ ips) a =
      rw (a.row_is, add_address)
        (rw (modify-put name (λ l. push_unique l addr) (ip ∷ ips) jobs a.sorted a.row_is) (
          rw (get-put name name (push_unique (ip ∷ ips) addr) jobs a.sorted)
            (rw (text_eq_refl name) (sym (row_of-push_unique (ip ∷ ips) addr)))))

  get-add_address_other :
      (name job : Text) (addr : Ip) (jobs : Jobs)
      → IsSorted jobs
      → text_eq name job ≡ false
      → Table.get job (add_address h name addr jobs) ≡ Table.get job jobs
  unfolding add_address
  get-add_address_other name job addr jobs s other = elim (Option-cases (Table.get name jobs)) [
    | inl e ↦
        rw (e, add_address) (rw (get-insert name job (push_unique [] addr) jobs s) (rw other refl))
    | inr (list, e) ↦
        rw (e, add_address)
          (rw (modify-put name (λ l. push_unique l addr) list jobs s e)
            (rw (get-put name job (push_unique list addr) jobs s) (rw other refl)))
  ]

  -- One task does the same to both.
  added-Agrees :
      (job name : Text) (addr : Ip) (jobs : Jobs) (ips : List Ip)
      → Agrees job jobs ips
      → Agrees job
          (add_address h name addr jobs)
          (if not (text_eq name job) then ips else push_unique ips addr)
  added-Agrees job name addr jobs ips a = elim (Bool-cases (text_eq name job)) [
    | inl same ↦
        let e = (text_eq_iff name job).0 same in
        rw same (record {
          sorted = add_address-IsSorted name addr jobs a.sorted;
          row_is =
              subst
                (λ (n : Text).
                  Table.get job (add_address h n addr jobs) ≡ row_of (push_unique ips addr))
                (sym e) (get-add_address_same job addr jobs ips a);
        })
    | inr other ↦ rw other (record {
      sorted = add_address-IsSorted name addr jobs a.sorted;
      row_is = get-add_address_other name job addr jobs a.sorted other ∙ a.row_is;
    })
  ]

  task-Agrees :
      (job name : Text) (o : Option Ip) (jobs : Jobs) (ips : List Ip)
      → Agrees (lowercase job) jobs ips
      → Agrees
          (lowercase job)
          (elim o as (λ _. Jobs) [
            | none ↦ jobs
            | some addr ↦ add_address h (lowercase name) addr jobs
          ])
          (if not (eq_ignore_ascii_case name job)
            then ips
            else elim o as (λ _. List Ip) [ some addr ↦ push_unique ips addr | none ↦ ips ])
  unfolding eq_ignore_ascii_case
  task-Agrees job name none jobs ips a =
      elim (not (text_eq (lowercase name) (lowercase job)))
        as (λ c. Agrees (lowercase job) jobs (if c then ips else ips)) [ true ↦ a | false ↦ a ]
  task-Agrees job name (some addr) jobs ips a =
      added-Agrees (lowercase job) (lowercase name) addr jobs ips a

  tasks-Agrees :
      (job agent : Text) (ip : Option Ip) (here : Option Local) (tasks : List h.Task) (jobs : Jobs)
      (ips : List Ip)
      → Agrees (lowercase job) jobs ips
      → Agrees
          (lowercase job)
          (add_tasks h agent ip here tasks jobs)
          (add_job_tasks h job agent ip here tasks ips)
  unfolding add_tasks add_job_tasks
  tasks-Agrees job agent ip here [] jobs ips a = a
  tasks-Agrees job agent ip here (task ∷ rest) jobs ips a =
      tasks-Agrees job agent ip here rest _ _
        (task-Agrees job (h.job_name task) (task_ip h agent ip task here) jobs ips a)

  agents-Agrees :
      (job : Text) (agents : List h.AgentInfo) (here : Option Local) (tasks : List h.AgentTasks)
      (jobs : Jobs) (ips : List Ip)
      → Agrees (lowercase job) jobs ips
      → Agrees
          (lowercase job)
          (add_agents h agents here tasks jobs)
          (add_job_agents h job agents here tasks ips)
  unfolding add_agents add_job_agents
  agents-Agrees job agents here [] jobs ips a = a
  agents-Agrees job agents here (at ∷ rest) jobs ips a = agents-Agrees job agents here rest _ _ (
      tasks-Agrees job (h.agent at) (agent_ip h agents (h.agent at)) here (or_default (h.tasks at))
        jobs ips a)

  -- The row that `build_jobs` has for a job in small letters is the list that `build_job` builds
  -- for the job from the same agents and tasks, and missing where that list is empty.
  pub get-build_jobs :
      (job : Text) (agents : List h.AgentInfo) (tasks : List h.AgentTasks) (here : Option Local)
      → Table.get (lowercase job) (build_jobs h agents tasks here)
        ≡ row_of (build_job h job agents tasks here)
  unfolding build_jobs build_job Table.new
  get-build_jobs job agents tasks here =
      (agents-Agrees job agents here tasks Table.new [] start).row_is
    where
      start : Agrees (lowercase job) Table.new []
      start = record { sorted = tt; row_is = get-new (lowercase job) }

  -- The image of a cluster is a sorted table.
  pub build_jobs-IsSorted :
      (agents : List h.AgentInfo) (tasks : List h.AgentTasks) (here : Option Local)
      → IsSorted (build_jobs h agents tasks here)
  unfolding build_jobs build_job Table.new
  build_jobs-IsSorted agents tasks here =
      (agents-Agrees [] agents here tasks Table.new [] start).sorted
    where
      start : Agrees (lowercase []) Table.new []
      start = record { sorted = tt; row_is = get-new (lowercase []) }
