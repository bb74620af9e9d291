-- ===== src/Host/Drained.antt =====
-- src/host.rs: what the messages of a channel leave in the cache, in the order they come.
use hopdns.Base.{Bool, true, false, List, [], ◌∷◌, ◌++◌, ◌≡◌, refl, ◌∙◌, inl, inr, All}
use hopdns.Cache.{Cache, get_cluster}
use hopdns.Cache.Laws.{
  IsValid, set-IsValid, set_refused, get_cluster-set, update-IsValid, update_cases,
  get_cluster-update,
}
use hopdns.Host.Serve.{Message, drain}
use hopdns.Table.{IsSorted}
use hopdns.Text.{Text, text_eq}
use hopdns.Watcher.{Update, apply, cluster_of}

-- The image that a message carries is a sorted table.
abbrev pub IsSound : Update → Type 0
IsSound (Update.replace cluster image) = IsSorted image
IsSound (Update.set cluster job ips) = Unit

abbrev pub Sound : Message → Type 0
Sound m = IsSound (m.1)

pub apply-IsValid :
    (grant : Bool) (u : Update) (c : Cache) → IsSound u → IsValid c → IsValid ((apply grant u c).0)
unfolding apply
apply-IsValid grant (Update.replace cluster image) c sound v =
    update-IsValid grant cluster image c v sound
apply-IsValid grant (Update.set cluster job ips) c sound v = set-IsValid grant cluster job ips c v

-- A message is of another cluster.
abbrev pub Elsewhere : Text → Message → Type 0
Elsewhere k m = text_eq (cluster_of (m.1)) k ≡ false

apply-other :
    (grant : Bool) (u : Update) (c : Cache) (k j : Text)
    → IsValid c
    → text_eq (cluster_of u) k ≡ false
    → get_cluster ((apply grant u c).0) k j ≡ get_cluster c k j
unfolding apply cluster_of
apply-other true (Update.replace cluster image) c k j v other =
    get_cluster-update cluster image c k j v ∙ rw other refl
apply-other true (Update.set cluster job ips) c k j v other =
    get_cluster-set cluster job ips c k j v ∙ rw other refl
apply-other false (Update.replace cluster image) c k j v other =
    elim (update_cases false cluster image c v) [
      | inl e ↦ rw e (get_cluster-update cluster image c k j v ∙ rw other refl)
      | inr e ↦ rw e refl
    ]
apply-other false (Update.set cluster job ips) c k j v other =
    elim (set_refused cluster job ips c v) [
      | inl e ↦ rw e (get_cluster-set cluster job ips c k j v ∙ rw other refl)
      | inr e ↦ rw e refl
    ]

-- `drain` leaves a valid cache valid, if the images of the messages are sorted, whether memory is
-- granted or not.
pub drain-IsValid :
    (waiting : List Message) (c : Cache) → All Sound waiting → IsValid c → IsValid (drain waiting c)
unfolding drain
drain-IsValid [] c sound v = v
drain-IsValid ((grant, u) ∷ waiting) c sound v =
    drain-IsValid waiting ((apply grant u c).0) (sound.1) (apply-IsValid grant u c (sound.0) v)

-- Two drains one after the other are one of both.
pub drain-append :
    (before after : List Message) (c : Cache)
    → drain (before ++ after) c ≡ drain after (drain before c)
unfolding drain
drain-append [] after c = refl
drain-append ((grant, u) ∷ before) after c = drain-append before after ((apply grant u c).0)

-- Messages of other clusters leave the jobs of a cluster as they were.
pub get_cluster-drain :
    (waiting : List Message) (c : Cache) (k j : Text)
    → IsValid c
    → All Sound waiting
    → All (Elsewhere k) waiting
    → get_cluster (drain waiting c) k j ≡ get_cluster c k j
unfolding drain
get_cluster-drain [] c k j v sound other = refl
get_cluster-drain ((grant, u) ∷ waiting) c k j v sound other =
    get_cluster-drain waiting ((apply grant u c).0) k j (apply-IsValid grant u c (sound.0) v)
      (sound.1) (other.1)
    ∙ apply-other grant u c k j v (other.0)
