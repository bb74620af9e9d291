-- ===== src/Server/Known.antt =====
-- src/server.rs: which names under the domain the cache knows, said by `get_cluster` and the clusters alone.
use hopdns.Base.{
  Bool, true, false, ◌||◌, List, [], ◌∷◌, ◌++◌, Option, some, ◌≡◌, refl, sym, ap, ◌∙◌, ◌⊎◌, inl,
  inr, subst, Option-cases,
}
use hopdns.Cache
use hopdns.Cache.{Cache, Ip, Jobs, get_cluster}
use hopdns.Cache.Laws.{IsValid}
use hopdns.Cache.Merged.{has_job_iff}
use hopdns.Server.{Lookup, cluster, look, exists}
use hopdns.Server.Look.{IsLabel, look_lem}
use hopdns.Table
use hopdns.Table.Has.{contains_key-get, get-contains_key}
use hopdns.Text.{Text, split_once}
use hopdns.Text.Split.{Free, split_once-none, split_once-some}

-- The domain, or a name in front of it.
abbrev pub InDomain : Text → Text → Type 0
InDomain domain name = (name ≡ domain) ⊎ ((front : Text) × (name ≡ front ++ b'.' ∷ domain))

-- A cluster of this name, with any jobs or none.
abbrev pub IsCluster : Cache → Text → Type 0
IsCluster c name = (jobs : Jobs) × (Table.get name c.clusters ≡ some jobs)

-- A job of some cluster, with any addresses or none.
abbrev pub IsJob : Cache → Text → Type 0
IsJob c name = (clu : Text) × (ips : List Ip) × (get_cluster c clu name ≡ some ips)

-- The domain itself; a job or a cluster in front of it; a job and its cluster in front of it.
abbrev pub Known : Cache → Text → Text → Type 0
Known c domain name =
    (name ≡ domain)
    ⊎ (((front : Text) × IsLabel front
          × (name ≡ front ++ b'.' ∷ domain)
          × (IsJob c front ⊎ IsCluster c front))
        ⊎ ((job : Text) × (clu : Text) × (ips : List Ip) × IsLabel job
            × (name ≡ (job ++ b'.' ∷ clu) ++ b'.' ∷ domain)
            × (get_cluster c clu job ≡ some ips)))

Free-IsLabel : (t : Text) → Free b'.' t → IsLabel t
Free-IsLabel [] free = tt
Free-IsLabel (c ∷ t) free = (free.0, Free-IsLabel t (free.1))

or_true : (a b : Bool) → (a || b) ≡ true → (a ≡ true) ⊎ (b ≡ true)
or_true true b h = inl refl
or_true false b h = inr h

or_left : (a b : Bool) → a ≡ true → (a || b) ≡ true
or_left true b h = refl
or_left false b h = absurd cc

or_right : (a b : Bool) → b ≡ true → (a || b) ≡ true
or_right true b h = refl
or_right false b h = h

has_cluster-IsCluster :
    (c : Cache) (name : Text) → IsValid c → Cache.has_cluster c name ≡ true → IsCluster c name
unfolding Cache.has_cluster
has_cluster-IsCluster c name v h = contains_key-get name c.clusters v.sorted h

IsCluster-has_cluster :
    (c : Cache) (name : Text) → IsValid c → IsCluster c name → Cache.has_cluster c name ≡ true
unfolding Cache.has_cluster
IsCluster-has_cluster c name v (jobs, found) = get-contains_key name c.clusters jobs v.sorted found

module _ (c : Cache) (domain : Text) (v : IsValid c) where
  exists-front :
      (front : Text)
      → exists c (look c (front ++ b'.' ∷ domain) domain) ≡ true
      → Known c domain (front ++ b'.' ∷ domain)
  unfolding exists
  exists-front front h = elim (Option-cases (split_once b'.' front)) [
    | inl whole ↦
        let label = Free-IsLabel front (split_once-none b'.' front whole) in
        let found = (look_lem c domain front [] [] label tt).1 in
        let h' = subst (λ (l : Lookup). exists c l ≡ true) found h in
        inr (
          inl (
            front,
            label,
            refl,
            elim (or_true (Cache.has_job c front) _ h') [
              | inl job ↦
                  inl (let (ips, (clu, at)) = (has_job_iff c front v).0 job in (clu, ips, at))
              | inr clu ↦ inr (has_cluster-IsCluster c front v clu)
            ],
          ))
    | inr ((job, clu), cut) ↦
        let (parts, free) = split_once-some b'.' front job clu cut in
        let label = Free-IsLabel job free in
        let found =
          ap (λ (x : Text). look c (x ++ b'.' ∷ domain) domain) parts
          ∙ (look_lem c domain [] job clu tt label).2 in
        let h' = subst (λ (l : Lookup). exists c l ≡ true) found h in
        elim (Option-cases (get_cluster c clu job)) [
          | inl missing ↦
              let e = subst (λ (o : Option (List Ip)). exists c (cluster o) ≡ true) missing h' in
              absurd cc
          | inr (ips, at) ↦
              inr (inr (job, clu, ips, label, ap (λ (x : Text). x ++ b'.' ∷ domain) parts, at))
        ]
  ]

  pub exists-Known :
      (name : Text)
      → InDomain domain name
      → exists c (look c name domain) ≡ true
      → Known c domain name
  exists-Known name (inl same) h = inl same
  exists-Known name (inr (front, same)) h =
      subst (Known c domain) (sym same)
        (exists-front front (subst (λ (n : Text). exists c (look c n domain) ≡ true) same h))

  pub Known-exists : (name : Text) → Known c domain name → exists c (look c name domain) ≡ true
  unfolding exists
  Known-exists name (inl same) =
      ap (λ (n : Text). exists c (look c n domain)) same
      ∙ ap (exists c) (look_lem c domain [] [] [] tt tt).0
  Known-exists name (inr (inl (front, label, same, is))) =
      ap (λ (n : Text). exists c (look c n domain)) same
      ∙ (ap (exists c) (look_lem c domain front [] [] label tt).1 ∙ elim is [
        | inl (clu, ips, at) ↦
            or_left (Cache.has_job c front) (Cache.has_cluster c front)
              ((has_job_iff c front v).1 (ips, (clu, at)))
        | inr clu ↦
            or_right (Cache.has_job c front) (Cache.has_cluster c front)
              (IsCluster-has_cluster c front v clu)
      ])
  Known-exists name (inr (inr (job, clu, ips, label, same, at))) =
      ap (λ (n : Text). exists c (look c n domain)) same
      ∙ (ap (exists c) (look_lem c domain [] job clu tt label).2
          ∙ ap (λ (o : Option (List Ip)). exists c (cluster o)) at)
