-- ===== src/Cache.antt =====
-- src/cache.rs: for each cluster the addresses of its jobs. An `Ipv4Addr` is its 32-bit number.
pub mod Laws
pub mod Merged
pub mod Fresh
use hopdns.Base.{
  ℕ, zero, suc, ◌+◌, Bool, true, false, not, ◌&&◌, ◌||◌, List, [], ◌∷◌, ◌++◌, Option, none, some,
  ◌==◌, if◌then◌else◌, ◌>>=◌, length,
}
use hopdns.Errors.{Result, ok, err}
use hopdns.Text.{Text}
use hopdns.Table
use hopdns.Table.{Table}

abbrev pub Ip : Type 0
Ip = ℕ

-- `Jobs`: job name to addresses.
abbrev pub Jobs : Type 0
Jobs = Table (List Ip)

pub record Cache : Type 0 where
  pub clusters : Table Jobs

unfoldable pub new : Cache
new = record { clusters = Table.new }

-- `list.contains(&ip)`.
unfoldable pub contains : List Ip → Ip → Bool
contains [] ip = false
contains (x ∷ xs) ip = x == ip || contains xs ip

unfoldable pub get_cluster : Cache → Text → Text → Option (List Ip)
get_cluster c cluster job = do jobs ← Table.get cluster c.clusters; Table.get job jobs

-- The `filter_map` of `merged`.
merged_rows : Text → List Jobs → List (List Ip)
merged_rows job [] = []
merged_rows job (jobs ∷ rest) = elim (Table.get job jobs) [
  | some ips ↦ ips ∷ merged_rows job rest
  | none ↦ merged_rows job rest
]

-- The address list of `job` in each cluster that knows it.
unfoldable pub merged : Cache → Text → List (List Ip)
unfolding merged_rows
merged c job = merged_rows job (Table.values c.clusters)

-- The inner and the outer loop of `get_merged`.
unfoldable pub merge_ips : List Ip → List Ip → List Ip
merge_ips out [] = out
merge_ips out (ip ∷ ips) = merge_ips (if not (contains out ip) then out ++ ip ∷ [] else out) ips

unfoldable pub merge_lists : List Ip → List (List Ip) → List Ip
merge_lists out [] = out
merge_lists out (ips ∷ lists) = merge_lists (merge_ips out ips) lists

unfoldable pub get_merged : Cache → Text → List Ip
get_merged c job = merge_lists [] (merged c job)

-- `merged(job).next().is_some()`.
unfoldable pub has_job : Cache → Text → Bool
has_job c job = elim (merged c job) [ [] ↦ false | _ ∷ _ ↦ true ]

unfoldable pub has_cluster : Cache → Text → Bool
has_cluster c cluster = Table.contains_key cluster c.clusters

-- `grant`: see `Table.insert`. A new cluster's map is built before the cluster is inserted.
set_new : Bool → Text → Text → List Ip → Cache → Cache × Result (Unit {0})
set_new grant cluster job ips c =
    let (jobs, built) = Table.insert grant job ips Table.new in
    elim built [
      | ok _ ↦
          let (clusters', placed) = Table.insert grant cluster jobs c.clusters in
          (record { clusters = clusters' }, elim placed [ ok _ ↦ ok tt | err e ↦ err e ])
      | err e ↦ (c, err e)
    ]

unfoldable pub set : Bool → Text → Text → List Ip → Cache → Cache × Result (Unit {0})
unfolding set_new
set grant cluster job ips c = elim (Table.get cluster c.clusters) [
  | some jobs ↦
      let (jobs', placed) = Table.insert grant job ips jobs in
      (
        record { clusters = Table.modify cluster (λ _. jobs') c.clusters },
        elim placed [ ok _ ↦ ok tt | err e ↦ err e ],
      )
  | none ↦ set_new grant cluster job ips c
]

unfoldable pub replace : Bool → Text → Jobs → Cache → Cache × Result (Option Jobs)
replace grant cluster jobs c =
    let (clusters', previous) = Table.insert grant cluster jobs c.clusters in
    (record { clusters = clusters' }, previous)

unfoldable pub update : Bool → Text → Jobs → Cache → Cache × Result (Unit {0})
unfolding replace
update grant cluster jobs c =
    let (c', previous) = replace grant cluster jobs c in
    (c', elim previous [ ok _ ↦ ok tt | err e ↦ err e ])

unfoldable pub clear : Text → Cache → Cache
clear cluster c = record { clusters = (Table.remove cluster c.clusters).0 }

unfoldable pub cluster_count : Cache → ℕ
cluster_count c = Table.len c.clusters

-- `clusters()` of the source, whose field has that name too, is `cluster_count`.

-- The names that no earlier cluster knows.
known_in : List Jobs → Text → Bool
known_in [] name = false
known_in (jobs ∷ rest) name = Table.contains_key name jobs || known_in rest name

count_new : List Jobs → List Text → ℕ
count_new earlier [] = 0
count_new earlier (name ∷ names) =
    (if not (known_in earlier name) then 1 else 0) + count_new earlier names

count_jobs : List Jobs → List Jobs → ℕ
count_jobs earlier [] = 0
count_jobs earlier (jobs ∷ rest) =
    count_new earlier (Table.keys jobs) + count_jobs (earlier ++ jobs ∷ []) rest

unfoldable pub jobs : Cache → ℕ
unfolding count_jobs count_new known_in
jobs c = count_jobs [] (Table.values c.clusters)
