-- ===== src/Cache/Fresh.antt =====
-- `get_merged` as a definition that does not gather: each address at the place where it comes first.
use hopdns.Base.{
  List, [], ◌∷◌, ◌++◌, ◌≡◌, refl, sym, ◌∙◌, flatten, append_assoc, append-nil, Bool-cases, inl, inr,
  if◌then◌else◌,
}
use hopdns.Cache.{Cache, Ip, contains, merged, merge_ips, merge_lists, get_merged}
use hopdns.Text.{Text}

-- The addresses that are not in `seen`, each once, in their order.
unfoldable pub fresh : List Ip → List Ip → List Ip
fresh seen [] = []
fresh seen (ip ∷ ips) =
    if contains seen ip then fresh seen ips else ip ∷ fresh (seen ++ ip ∷ []) ips

fresh-append :
    (xs ys seen : List Ip)
    → fresh seen (xs ++ ys) ≡ fresh seen xs ++ fresh (seen ++ fresh seen xs) ys
unfolding fresh
fresh-append [] ys seen = rw (append-nil seen) refl
fresh-append (x ∷ xs) ys seen = elim (Bool-cases (contains seen x)) [
  | inl old ↦ rw (old, fresh) (fresh-append xs ys seen)
  | inr new ↦
      rw (new, fresh)
        (rw
          (
            fresh-append xs ys (seen ++ x ∷ []),
            append_assoc seen (x ∷ []) (fresh (seen ++ x ∷ []) xs),
          )
          refl)
]

merge_ips-fresh : (ips out : List Ip) → merge_ips out ips ≡ out ++ fresh out ips
unfolding fresh merge_ips
merge_ips-fresh [] out = sym (append-nil out)
merge_ips-fresh (ip ∷ ips) out = elim (Bool-cases (contains out ip)) [
  | inl old ↦ rw (old, merge_ips, fresh) (merge_ips-fresh ips out)
  | inr new ↦
      rw (new, merge_ips, fresh)
        (merge_ips-fresh ips (out ++ ip ∷ [])
          ∙ append_assoc out (ip ∷ []) (fresh (out ++ ip ∷ []) ips))
]

merge_lists-fresh :
    (lists : List (List Ip)) (out : List Ip)
    → merge_lists out lists ≡ out ++ fresh out (flatten lists)
unfolding fresh merge_lists
merge_lists-fresh [] out = sym (append-nil out)
merge_lists-fresh (ips ∷ lists) out =
    merge_lists-fresh lists (merge_ips out ips)
    ∙ rw (merge_ips-fresh ips out, fresh-append ips (flatten lists) out)
        (append_assoc out (fresh out ips) (fresh (out ++ fresh out ips) (flatten lists)))

pub get_merged-fresh :
    (c : Cache) (job : Text) → get_merged c job ≡ fresh [] (flatten (merged c job))
unfolding get_merged
get_merged-fresh c job = merge_lists-fresh (merged c job) []
