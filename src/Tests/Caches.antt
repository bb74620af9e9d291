-- ===== src/Tests/Caches.antt =====
-- src/cache.rs: two clusters that share a job.
use hopdns.Base.{true, List, [], ◌∷◌, ◌≡◌, refl, ◌↔◌}
use hopdns.Cache
use hopdns.Cache.{Cache, Ip, Jobs, get_cluster, set, update, clear, get_merged, has_job, contains}
use hopdns.Cache.Laws.{IsValid, new-IsValid, set-IsValid}
use hopdns.Cache.Merged.{Distinct, Known, get_merged_lem}
use hopdns.Table
use hopdns.Text.{codes, compare_text}

abbrev pub one_cluster : Cache
one_cluster = (set true (codes "east") (codes "web") (1 ∷ 2 ∷ []) Cache.new).0

abbrev pub two_clusters : Cache
two_clusters = (set true (codes "west") (codes "web") (2 ∷ 3 ∷ []) one_cluster).0

pub two_clusters-IsValid : IsValid two_clusters
two_clusters-IsValid =
    set-IsValid true (codes "west") (codes "web") (2 ∷ 3 ∷ []) one_cluster
      (set-IsValid true (codes "east") (codes "web") (1 ∷ 2 ∷ []) Cache.new new-IsValid)

get_merged_lem_example :
    Distinct (get_merged two_clusters (codes "web"))
    × ((ip : Ip)
        → (contains (get_merged two_clusters (codes "web")) ip ≡ true)
          ↔ ((ips : List Ip) × Known two_clusters (codes "web") ips × (contains ips ip ≡ true)))
get_merged_lem_example = get_merged_lem two_clusters (codes "web") two_clusters-IsValid

pub two_clusters-merged : get_merged two_clusters (codes "web") ≡ 1 ∷ 2 ∷ 3 ∷ []
unfolding get_merged Cache.merged set Cache.new Table.get Table.insert Table.modify Table.new
    Table.values compare_text contains Cache.merge_lists Cache.merge_ips
two_clusters-merged = refl
