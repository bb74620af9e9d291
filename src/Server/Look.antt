-- ===== src/Server/Look.antt =====
-- src/server.rs: what a name under the domain asks for.
use hopdns.Base.{
  ◌+◌, ◌-◌, false, [], ◌∷◌, ◌++◌, none, some, ◌≡◌, refl, arith, ltb, ltb_le, lt→ltb, ◌==◌, length,
  take, length-append, take-append,
}
use hopdns.Cache.{Cache, get_cluster}
use hopdns.Server.{cluster, merged, apex, look}
use hopdns.Text.{Text, split_once}

-- A label: no dot in it.
abbrev pub IsLabel : Text → Type 0
IsLabel [] = Unit
IsLabel (c ∷ t) = ((c == b'.') ≡ false) × IsLabel t

split_once_label : (t : Text) → IsLabel t → split_once b'.' t ≡ none
unfolding split_once
split_once_label [] l = refl
split_once_label (c ∷ t) l = rw (l.0, split_once) (rw (split_once_label t (l.1)) refl)

split_once-append :
    (t rest : Text) → IsLabel t → split_once b'.' (t ++ b'.' ∷ rest) ≡ some (t, rest)
unfolding split_once
split_once-append [] rest l = refl
split_once-append (c ∷ t) rest l = rw (l.0, split_once) (rw (split_once-append t rest (l.1)) refl)

-- The part in front of the domain.
module _ (c : Cache) (prefix domain : Text) where
  longer : ltb (length (prefix ++ b'.' ∷ domain)) (length domain + 1) ≡ false
  longer =
      ltb_le (length (prefix ++ b'.' ∷ domain)) (length domain + 1)
        (omega (arith, length-append prefix (b'.' ∷ domain)))

  front :
      take (length (prefix ++ b'.' ∷ domain) - (length domain + 1)) (prefix ++ b'.' ∷ domain)
      ≡ prefix
  front =
      let width : length (prefix ++ b'.' ∷ domain) - (length domain + 1) ≡ length prefix =
        omega (arith, length-append prefix (b'.' ∷ domain)) in
      rw width (take-append prefix (b'.' ∷ domain))

  look_label : IsLabel prefix → look c (prefix ++ b'.' ∷ domain) domain ≡ merged prefix
  unfolding look
  look_label l = rw (longer, look) (rw front (rw (split_once_label prefix l) (rw front refl)))

  look_split :
      (service clu : Text)
      → split_once b'.' prefix ≡ some (service, clu)
      → look c (prefix ++ b'.' ∷ domain) domain ≡ cluster (get_cluster c clu service)
  unfolding look
  look_split service clu e = rw (longer, look) (rw front (rw e refl))

-- For a job and a service without a dot, `look` takes the domain itself as the apex, the job in
-- front of the domain as that job of any cluster, and the service, a cluster and the domain as
-- what `get_cluster` has for the service in that cluster.
pub look_lem :
    (c : Cache) (domain job service clu : Text)
    → IsLabel job
    → IsLabel service
    → (look c domain domain ≡ apex)
      × (look c (job ++ b'.' ∷ domain) domain ≡ merged job)
      × (look c ((service ++ b'.' ∷ clu) ++ b'.' ∷ domain) domain
          ≡ cluster (get_cluster c clu service))
unfolding look
look_lem c domain job service clu j s = (
  rw (lt→ltb (length domain) (length domain + 1) (omega arith), look) refl,
  look_label c job domain j,
  look_split c (service ++ b'.' ∷ clu) domain service clu (split_once-append service clu s),
)
