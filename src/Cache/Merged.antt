-- ===== src/Cache/Merged.antt =====
-- The answer for a job over every cluster: each address once, and the addresses of the clusters.
use hopdns.Base.{
  flatten, true, false, ◌||◌, List, [], ◌∷◌, ◌++◌, map, some, ◌≡◌, refl, sym, ◌∙◌, ◌↔◌, inl, inr,
  arith, ◌==◌, Option-cases, Bool-cases,
}
use hopdns.Cache.{
  Cache, Ip, Jobs, contains, get_cluster, merged_rows, merged, merge_ips, merge_lists, get_merged,
  has_job,
}
use hopdns.Cache.Laws.{IsValid}
use hopdns.Table
use hopdns.Table.{Table, Ascending}
use hopdns.Table.Rows.{lookup, lookup-Above}
use hopdns.Table.Places.{get-lookup}
use hopdns.Text.{Text, text_eq}
use hopdns.Text.Order.{text_eq_iff, text_eq_refl}

-- No address stands twice.
abbrev pub Distinct : List Ip → Type 0
Distinct [] = Unit
Distinct (x ∷ xs) = (contains xs x ≡ false) × Distinct xs

pub contains-concat :
    (xs : List Ip) (x ip : Ip) → contains (xs ++ x ∷ []) ip ≡ (contains xs ip || x == ip)
unfolding contains
contains-concat [] x ip = ground arith
contains-concat (y ∷ ys) x ip = ground (arith, contains-concat ys x ip)

pub contains-append :
    (xs ys : List Ip) (ip : Ip) → contains (xs ++ ys) ip ≡ (contains xs ip || contains ys ip)
unfolding contains
contains-append [] ys ip = refl
contains-append (x ∷ xs) ys ip = ground (arith, contains-append xs ys ip)

pub Distinct-concat :
    (xs : List Ip) (x : Ip) → Distinct xs → contains xs x ≡ false → Distinct (xs ++ x ∷ [])
unfolding contains
Distinct-concat [] x d h = (refl, tt)
Distinct-concat (y ∷ ys) x d h = ground (arith, contains-concat ys x y, Distinct-concat ys x (d.1))

contains-merge_ips :
    (ips out : List Ip) (ip : Ip)
    → contains (merge_ips out ips) ip ≡ (contains out ip || contains ips ip)
unfolding merge_ips contains
contains-merge_ips [] out ip = ground arith
contains-merge_ips (x ∷ ips) out ip = elim (Bool-cases (contains out x)) [
  | inl old ↦ rw (old, merge_ips) (ground (arith, contains-merge_ips ips out ip))
  | inr fresh ↦
      rw (fresh, merge_ips)
        (ground (arith, contains-merge_ips ips (out ++ x ∷ []) ip, contains-concat out x ip))
]

Distinct-merge_ips : (ips out : List Ip) → Distinct out → Distinct (merge_ips out ips)
unfolding merge_ips
Distinct-merge_ips [] out d = d
Distinct-merge_ips (x ∷ ips) out d = elim (Bool-cases (contains out x)) [
  | inl old ↦ rw old (Distinct-merge_ips ips out d)
  | inr fresh ↦ rw fresh (Distinct-merge_ips ips (out ++ x ∷ []) (Distinct-concat out x d fresh))
]

contains-merge_lists :
    (lists : List (List Ip)) (out : List Ip) (ip : Ip)
    → contains (merge_lists out lists) ip ≡ (contains out ip || contains (flatten lists) ip)
unfolding merge_lists
contains-merge_lists [] out ip = unfold contains in ground arith
contains-merge_lists (ips ∷ lists) out ip =
    contains-merge_lists lists (merge_ips out ips) ip
    ∙ ground (arith, contains-merge_ips ips out ip, contains-append ips (flatten lists) ip)

Distinct-merge_lists :
    (lists : List (List Ip)) (out : List Ip) → Distinct out → Distinct (merge_lists out lists)
unfolding merge_lists
Distinct-merge_lists [] out d = d
Distinct-merge_lists (ips ∷ lists) out d =
    Distinct-merge_lists lists (merge_ips out ips) (Distinct-merge_ips ips out d)

-- A cluster that knows the job, with its addresses.
abbrev pub Known : Cache → Text → List Ip → Type 0
Known c job ips = (cluster : Text) × (get_cluster c cluster job ≡ some ips)

abbrev KnownRows : List (Text × Jobs) → Text → List Ip → Type 0
KnownRows rows job ips =
    (cluster : Text) × (jobs : Jobs) × (lookup cluster rows ≡ some jobs)
    × (Table.get job jobs ≡ some ips)

-- A later row is found past the first one, since keys differ.
KnownRows-cons :
    (k : Text) (jobs : Jobs) (rows : List (Text × Jobs)) (job : Text) (ips : List Ip)
    → Ascending ((k, jobs) ∷ rows)
    → KnownRows rows job ips
    → KnownRows ((k, jobs) ∷ rows) job ips
KnownRows-cons k jobs rows job ips h (cluster, found, e, g) =
    (cluster, found, ground (arith, text_eq_iff k cluster, lookup-Above k rows (h.0)), g)

merged_rows_sound :
    (rows : List (Text × Jobs)) (job : Text) (ip : Ip)
    → Ascending rows
    → contains (flatten (merged_rows job (map (λ (r : Text × Jobs). r.1) rows))) ip ≡ true
    → (ips : List Ip) × KnownRows rows job ips × (contains ips ip ≡ true)
unfolding merged_rows
merged_rows_sound [] job ip h e = unfold contains in cc
merged_rows_sound ((k, jobs) ∷ rows) job ip h e = elim (Option-cases (Table.get job jobs)) [
  | inl n ↦
      let (ips, known, c) = merged_rows_sound rows job ip (h.1) (rw (n, merged_rows) at e) in
      (ips, KnownRows-cons k jobs rows job ips h known, c)
  | inr (ips, s) ↦
      let e' = rw (s, merged_rows, contains-append) at e in
      elim (Bool-cases (contains ips ip)) [
        | inl c ↦ (ips, (k, jobs, rw (text_eq_refl k) refl, s), c)
        | inr c ↦
            let (ips', known, c') = merged_rows_sound rows job ip (h.1) (rw c at e') in
            (ips', KnownRows-cons k jobs rows job ips' h known, c')
      ]
]

merged_rows_complete :
    (rows : List (Text × Jobs)) (job : Text) (ip : Ip) (ips : List Ip)
    → KnownRows rows job ips
    → contains ips ip ≡ true
    → contains (flatten (merged_rows job (map (λ (r : Text × Jobs). r.1) rows))) ip ≡ true
unfolding merged_rows
merged_rows_complete [] job ip ips (cluster, found, e, g) c = cc
merged_rows_complete ((k, jobs) ∷ rows) job ip ips (cluster, found, e, g) c =
    elim (Option-cases (Table.get job jobs)) [
      | inl n ↦
          rw (n, merged_rows)
            (merged_rows_complete rows job ip ips (cluster, found, ground arith, g) c)
      | inr (mine, s) ↦
          rw (s, merged_rows, contains-append)
            (elim (Bool-cases (text_eq k cluster)) [
              | inl same ↦ ground arith
              | inr other ↦
                  rw (merged_rows_complete rows job ip ips (cluster, found, ground arith, g) c)
                    (ground arith)
            ])
    ]

Known-of_rows :
    (c : Cache) (job : Text) (ips : List Ip)
    → IsValid c
    → KnownRows c.clusters.rows job ips
    → Known c job ips
unfolding get_cluster
Known-of_rows c job ips v (cluster, jobs, e, g) =
    (cluster, rw (get-lookup cluster c.clusters v.sorted, e) g)

rows-Known :
    (c : Cache) (job : Text) (ips : List Ip)
    → IsValid c
    → Known c job ips
    → KnownRows c.clusters.rows job ips
unfolding get_cluster
rows-Known c job ips v (cluster, e) = elim (Option-cases (Table.get cluster c.clusters)) [
  | inl n ↦ absurd (ground (arith, n))
  | inr (jobs, s) ↦ (cluster, jobs, sym (get-lookup cluster c.clusters v.sorted) ∙ s, rw s at e)
]

pub contains-merged :
    (c : Cache) (job : Text) (ip : Ip)
    → IsValid c
    → (contains (flatten (merged c job)) ip ≡ true)
      ↔ ((ips : List Ip) × Known c job ips × (contains ips ip ≡ true))
unfolding merged Table.values
contains-merged c job ip v = (
  (λ e.
      let (ips, known, has) = merged_rows_sound c.clusters.rows job ip v.sorted e in
      (ips, Known-of_rows c job ips v known, has)),
  λ (ips, known, has).
      merged_rows_complete c.clusters.rows job ip ips (rows-Known c job ips v known) has,
)

contains-get_merged :
    (c : Cache) (job : Text) (ip : Ip)
    → contains (get_merged c job) ip ≡ contains (flatten (merged c job)) ip
unfolding get_merged
contains-get_merged c job ip = contains-merge_lists (merged c job) [] ip ∙ unfold contains in refl

Distinct-get_merged : (c : Cache) (job : Text) → Distinct (get_merged c job)
unfolding get_merged
Distinct-get_merged c job = Distinct-merge_lists (merged c job) [] tt

-- In a valid cache `get_merged` has no address twice, and has an address exactly if some cluster
-- has it for the job.
pub get_merged_lem :
    (c : Cache) (job : Text)
    → IsValid c
    → Distinct (get_merged c job)
      × ((ip : Ip)
          → (contains (get_merged c job) ip ≡ true)
            ↔ ((ips : List Ip) × Known c job ips × (contains ips ip ≡ true)))
get_merged_lem c job v = (
  Distinct-get_merged c job,
  λ ip. rw (contains-get_merged c job ip) (contains-merged c job ip v),
)

first_known :
    (rows : List (Text × Jobs)) (job : Text)
    → Ascending rows
    → (ips : List Ip) (lists : List (List Ip))
    → merged_rows job (map (λ (r : Text × Jobs). r.1) rows) ≡ ips ∷ lists
    → KnownRows rows job ips
unfolding merged_rows
first_known [] job h ips lists e = cc
first_known ((k, jobs) ∷ rows) job h ips lists e = elim (Option-cases (Table.get job jobs)) [
  | inl n ↦
      KnownRows-cons k jobs rows job ips h
        (first_known rows job (h.1) ips lists (rw (n, merged_rows) at e))
  | inr (mine, s) ↦
      let e' = rw (s, merged_rows) at e in (k, jobs, rw (text_eq_refl k) refl, cc (s, e'))
]

none_known :
    (rows : List (Text × Jobs)) (job : Text) (ips : List Ip)
    → merged_rows job (map (λ (r : Text × Jobs). r.1) rows) ≡ []
    → ¬ KnownRows rows job ips
unfolding merged_rows
none_known [] job ips e (cluster, found, l, g) = cc
none_known ((k, jobs) ∷ rows) job ips e (cluster, found, l, g) =
    elim (Option-cases (Table.get job jobs)) [
      | inl n ↦ none_known rows job ips (rw (n, merged_rows) at e) (cluster, found, ground arith, g)
      | inr (mine, s) ↦ absurd (cc (rw (s, merged_rows) at e))
    ]

-- In a valid cache `has_job` holds exactly if some cluster knows the job, be it with no address.
pub has_job_iff :
    (c : Cache) (job : Text)
    → IsValid c
    → (has_job c job ≡ true) ↔ ((ips : List Ip) × Known c job ips)
unfolding has_job merged Table.values
has_job_iff c job v = go _ refl
  where
    go :
        (lists : List (List Ip))
        → merged_rows job (map (λ (r : Text × Jobs). r.1) c.clusters.rows) ≡ lists
        → (has_job c job ≡ true) ↔ ((ips : List Ip) × Known c job ips)
    go [] e = (
      (λ h. absurd (cc (rw (e, has_job) at h))),
      λ (ips, known). absurd (none_known c.clusters.rows job ips e (rows-Known c job ips v known)),
    )
    go (ips ∷ lists) e = (
      (λ h.
          (ips, Known-of_rows c job ips v (first_known c.clusters.rows job v.sorted ips lists e))),
      λ w. rw (e, has_job),
    )
