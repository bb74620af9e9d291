-- ===== src/Cache/Laws.antt =====
-- The cache as a map from a cluster and a job to addresses: what each write changes.
use hopdns.Base.{
  Bool, true, false, ◌&&◌, List, Option, none, some, ◌≡◌, refl, sym, ◌∙◌, ◌⊎◌, inl, inr, arith,
  if◌then◌else◌, Option-cases,
}
use hopdns.Cache.{Cache, Ip, Jobs, new, get_cluster, set_new, set, replace, update, clear}
use hopdns.Errors.{Result, ok, err, out_of_memory}
use hopdns.Table
use hopdns.Table.{Table, AllRows, IsSorted}
use hopdns.Table.Laws.{
  insert-put, insert_refused, get-new, remove-delete, insert_cases, get-remove, remove-IsSorted,
  modify-put, modify_same, get-put,
}
use hopdns.Table.Rows.{put, Ascending-put, AllRows-put, AllRows-delete, AllRows-lookup}
use hopdns.Table.Places.{get-lookup}
use hopdns.Text.{Text, text_eq}
use hopdns.Text.Order.{text_eq_iff}

-- Each table is sorted by key.
pub record IsValid (c : Cache) : Type 0 where
  pub sorted : IsSorted c.clusters
  pub jobs_sorted : AllRows (λ r. IsSorted (r.1)) c.clusters.rows

pub new-IsValid : IsValid new
unfolding new Table.new
new-IsValid = record { sorted = tt; jobs_sorted = tt }

jobs-IsSorted :
    (c : Cache) (cluster : Text) (jobs : Jobs)
    → IsValid c
    → Table.get cluster c.clusters ≡ some jobs
    → IsSorted jobs
jobs-IsSorted c cluster jobs v e =
    AllRows-lookup (λ (t : Jobs). IsSorted t) cluster jobs c.clusters.rows v.jobs_sorted
      (sym (get-lookup cluster c.clusters v.sorted) ∙ e)

put-IsValid :
    (c : Cache) (cluster : Text) (jobs : Jobs)
    → IsValid c
    → IsSorted jobs
    → IsValid (record { clusters = record { rows = put cluster jobs c.clusters.rows } })
put-IsValid c cluster jobs v h = record {
  sorted = Ascending-put cluster jobs c.clusters.rows v.sorted;
  jobs_sorted =
      AllRows-put (λ r. IsSorted (r.1)) cluster jobs c.clusters.rows (λ _. h) v.jobs_sorted;
}

get_cluster-put :
    (c : Cache) (cluster : Text) (jobs : Jobs) (k j : Text)
    → IsValid c
    → get_cluster (record { clusters = record { rows = put cluster jobs c.clusters.rows } }) k j
      ≡ (if text_eq cluster k then Table.get j jobs else get_cluster c k j)
unfolding get_cluster
get_cluster-put c cluster jobs k j v =
    rw (get-put cluster k jobs c.clusters v.sorted) (ground arith)

-- The jobs that a cluster has when `set` writes one.
abbrev jobs_or_new : Option Jobs → Jobs
jobs_or_new (some jobs) = jobs
jobs_or_new none = Table.new

-- The jobs that `set` leaves in its cluster.
abbrev jobs_with : Text → List Ip → Jobs → Jobs
jobs_with job ips jobs = record { rows = put job ips jobs.rows }

insert-pair :
    (g : Bool) (job : Text) (ips : List Ip) (jobs : Jobs)
    → Table.insert g job ips jobs
      ≡ ((Table.insert g job ips jobs).0, (Table.insert g job ips jobs).1)
insert-pair g job ips jobs = refl

set_missing :
    (g : Bool) (cluster job : Text) (ips : List Ip) (c : Cache)
    → Table.get cluster c.clusters ≡ none
    → set g cluster job ips c ≡ set_new g cluster job ips c
unfolding set
set_missing g cluster job ips c e = rw (e, set)

new-IsSorted : IsSorted {V = List Ip} Table.new
unfolding Table.new
new-IsSorted = tt

set_new-put :
    (cluster job : Text) (ips : List Ip) (c : Cache)
    → IsValid c
    → set_new true cluster job ips c ≡ (
      record {
        clusters = record { rows = put cluster (jobs_with job ips Table.new) c.clusters.rows };
      },
      ok tt,
    )
unfolding set_new
set_new-put cluster job ips c v =
    rw (insert-put job ips Table.new new-IsSorted, set_new)
      (rw
        (
          insert-put job ips Table.new new-IsSorted,
          insert-put cluster (jobs_with job ips Table.new) c.clusters v.sorted,
        )
        refl)

set_new_refused :
    (cluster job : Text) (ips : List Ip) (c : Cache)
    → set_new false cluster job ips c ≡ (c, err out_of_memory)
unfolding set_new
set_new_refused cluster job ips c =
    rw (insert_refused job ips Table.new new-IsSorted (get-new job), set_new)

set_present :
    (g : Bool) (cluster job : Text) (ips : List Ip) (jobs jobs' : Jobs)
    (previous : Result (Option (List Ip))) (c : Cache)
    → IsValid c
    → Table.get cluster c.clusters ≡ some jobs
    → Table.insert g job ips jobs ≡ (jobs', previous)
    → set g cluster job ips c ≡ (
      record { clusters = Table.modify cluster (λ _. jobs') c.clusters },
      elim previous [ ok _ ↦ ok tt | err e ↦ err e ],
    )
unfolding set
set_present g cluster job ips jobs jobs' previous c v e i = rw (e, set) (rw i refl)

-- What `set` does when the allocator gives what it asks for, in terms of the rows.
set-put :
    (cluster job : Text) (ips : List Ip) (c : Cache)
    → IsValid c
    → (jobs : Jobs) × IsSorted jobs
      × ((j : Text) → Table.get j jobs ≡ get_cluster c cluster j)
      × (set true cluster job ips c ≡ (
        record {
          clusters = record { rows = put cluster (jobs_with job ips jobs) c.clusters.rows };
        },
        ok tt,
      ))
unfolding get_cluster
set-put cluster job ips c v = elim (Option-cases (Table.get cluster c.clusters)) [
  | inl e ↦ (
    Table.new,
    new-IsSorted,
    (λ j. rw e (get-new j)),
    set_missing true cluster job ips c e ∙ set_new-put cluster job ips c v,
  )
  | inr (jobs, e) ↦
      let sorted = jobs-IsSorted c cluster jobs v e in
      (
        jobs,
        sorted,
        (λ j. rw e refl),
        set_present true cluster job ips jobs _ _ c v e (insert-put job ips jobs sorted)
            ∙ rw (modify-put cluster (λ _. jobs_with job ips jobs) jobs c.clusters v.sorted e) refl,
      )
]

-- After `set` with memory granted on a valid cache, `get_cluster` gives the new addresses for the
-- cluster and job, and for every other pair what it gave before.
pub get_cluster-set :
    (cluster job : Text) (ips : List Ip) (c : Cache) (k j : Text)
    → IsValid c
    → get_cluster (set true cluster job ips c).0 k j
      ≡ (if text_eq cluster k && text_eq job j then some ips else get_cluster c k j)
get_cluster-set cluster job ips c k j v =
    let (jobs, sorted, same, e) = set-put cluster job ips c v in
    rw
      (
        e,
        get_cluster-put c cluster (jobs_with job ips jobs) k j v,
        get-put job j ips jobs sorted,
        same j,
      )
      (ground (arith, text_eq_iff cluster k))

-- On a valid cache with memory refused, `set` does what it does with memory granted, or gives the
-- error out_of_memory and leaves the cache as it was.
pub set_refused :
    (cluster job : Text) (ips : List Ip) (c : Cache)
    → IsValid c
    → (set false cluster job ips c ≡ set true cluster job ips c)
      ⊎ (set false cluster job ips c ≡ (c, err out_of_memory))
set_refused cluster job ips c v = elim (Option-cases (Table.get cluster c.clusters)) [
  | inl e ↦ inr (set_missing false cluster job ips c e ∙ set_new_refused cluster job ips c)
  | inr (jobs, e) ↦ elim (insert_cases false job ips jobs (jobs-IsSorted c cluster jobs v e)) [
    | inl same ↦ inl (
        set_present false cluster job ips jobs _ _ c v e (insert-pair false job ips jobs)
        ∙ rw same refl
        ∙ sym (set_present true cluster job ips jobs _ _ c v e (insert-pair true job ips jobs)))
    | inr (_, _, refused) ↦ inr (
        set_present false cluster job ips jobs _ _ c v e refused
        ∙ rw (modify_same cluster jobs c.clusters v.sorted e) refl)
  ]
]

set_granted-IsValid :
    (cluster job : Text) (ips : List Ip) (c : Cache)
    → IsValid c
    → IsValid (set true cluster job ips c).0
set_granted-IsValid cluster job ips c v =
    let (jobs, sorted, same, e) = set-put cluster job ips c v in
    rw e (put-IsValid c cluster (jobs_with job ips jobs) v (Ascending-put job ips jobs.rows sorted))

-- `set` on a valid cache leaves it valid, whether memory is granted or not: the clusters sorted,
-- and the jobs of each.
pub set-IsValid :
    (g : Bool) (cluster job : Text) (ips : List Ip) (c : Cache)
    → IsValid c
    → IsValid (set g cluster job ips c).0
set-IsValid true cluster job ips c v = set_granted-IsValid cluster job ips c v
set-IsValid false cluster job ips c v = elim (set_refused cluster job ips c v) [
  | inl e ↦ rw e (set_granted-IsValid cluster job ips c v)
  | inr e ↦ rw e v
]

update-put :
    (cluster : Text) (jobs : Jobs) (c : Cache)
    → IsValid c
    → update true cluster jobs c
      ≡ (record { clusters = record { rows = put cluster jobs c.clusters.rows } }, ok tt)
unfolding update replace
update-put cluster jobs c v = rw (insert-put cluster jobs c.clusters v.sorted) refl

-- After `update` with memory granted on a valid cache, `get_cluster` reads the cluster's jobs from
-- the new image, and every other cluster as before.
pub get_cluster-update :
    (cluster : Text) (jobs : Jobs) (c : Cache) (k j : Text)
    → IsValid c
    → get_cluster (update true cluster jobs c).0 k j
      ≡ (if text_eq cluster k then Table.get j jobs else get_cluster c k j)
get_cluster-update cluster jobs c k j v =
    rw (update-put cluster jobs c v) (get_cluster-put c cluster jobs k j v)

pub update_cases :
    (g : Bool) (cluster : Text) (jobs : Jobs) (c : Cache)
    → IsValid c
    → (update g cluster jobs c ≡ update true cluster jobs c)
      ⊎ (update g cluster jobs c ≡ (c, err out_of_memory))
unfolding update replace
update_cases g cluster jobs c v = elim (insert_cases g cluster jobs c.clusters v.sorted) [
  | inl e ↦ inl (rw e refl)
  | inr (_, _, e) ↦ inr (rw e refl)
]

pub update-IsValid :
    (g : Bool) (cluster : Text) (jobs : Jobs) (c : Cache)
    → IsValid c
    → IsSorted jobs
    → IsValid (update g cluster jobs c).0
update-IsValid g cluster jobs c v h = elim (update_cases g cluster jobs c v) [
  | inl e ↦ rw (e, update-put cluster jobs c v) (put-IsValid c cluster jobs v h)
  | inr e ↦ rw e v
]

pub clear-IsValid : (cluster : Text) (c : Cache) → IsValid c → IsValid (clear cluster c)
unfolding clear
clear-IsValid cluster c v = record {
  sorted = remove-IsSorted cluster c.clusters v.sorted;
  jobs_sorted =
      rw (remove-delete cluster c.clusters v.sorted)
        (AllRows-delete (λ r. IsSorted (r.1)) cluster c.clusters.rows v.jobs_sorted);
}

-- After `clear` on a valid cache, `get_cluster` gives nothing for the cluster, and for every other
-- cluster what it gave before.
pub get_cluster-clear :
    (cluster : Text) (c : Cache) (k j : Text)
    → IsValid c
    → get_cluster (clear cluster c) k j ≡ (if text_eq cluster k then none else get_cluster c k j)
unfolding get_cluster clear
get_cluster-clear cluster c k j v = rw (get-remove cluster k c.clusters v.sorted) (ground arith)
