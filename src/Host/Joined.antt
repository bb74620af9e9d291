-- ===== src/Host/Joined.antt =====
-- From an agent's tasks to a datagram: a refresh that a watcher sent, and the answer of the server.
use hopdns.Base.{
  ℕ, ◌^◌, ◌<◌, min, true, List, [], ◌∷◌, ◌++◌, Option, none, some, ◌≡◌, sym, ap, ◌∙◌, subst, arith,
  All, length, slice,
}
use hopdns.Cache
use hopdns.Cache.{Cache, Ip, get_cluster}
use hopdns.Cache.Laws.{IsValid, new-IsValid}
use hopdns.Errors.{Result, ok}
use hopdns.Host.{fine, System}
use hopdns.Host.Answers.{serve-query}
use hopdns.Host.Drained.{
  IsSound, Sound, Elsewhere, apply-IsValid, drain-IsValid, drain-append, get_cluster-drain,
}
use hopdns.Host.Refreshes.{Mine, refreshed_full-Mine}
use hopdns.Host.Serve.{Message, drain, Round, begin, serve}
use hopdns.Host.Turns.{delivered, GoesOn}
use hopdns.Host.Refresh.{sent_of}
use hopdns.Server.{Server, limit_of}
use hopdns.Server.Handle.{limit_of-bounds}
use hopdns.Server.Merge.{with_addresses}
use hopdns.Server.Positive.{AsksFor, fitting, handle-cluster}
use hopdns.Text.{Text, lowercase}
use hopdns.Watcher.{Watcher, Update, apply}
use hopdns.Watcher.Build.{Hoplib, Local, build_job, refreshed_full}
use hopdns.Watcher.Build.Agree.{row_of}
use hopdns.Watcher.Refreshed.{get_cluster-refreshed_full}
use hopdns.Wire.Query.{Query, query, parse_query}
use hopdns.Wire.Reply.Finish.{finished, sent}
use hopdns.Wire.Reply.Header.{question_image}
use hopdns.Wire.Reply.Shape.{image_bytes}

-- Among the delivered messages is this one, and the later ones are of other clusters.
pub record IsLatest (waiting : List Message) (u : Update) (cluster : Text) : Type 0 where
  pub earlier : List Message
  pub later : List Message
  pub waiting_are : waiting ≡ earlier ++ (true, u) ∷ later
  pub earlier_sound : All Sound earlier
  pub later_sound : All Sound later
  pub elsewhere : All (Elsewhere cluster) later

module _ (h : Hoplib) where
  -- What the cache has for a job after a refresh was delivered.
  pub get_cluster-delivered :
      (job cluster : Text) (agents : List h.AgentInfo) (tasks : List h.AgentTasks)
      (here : Option Local) (w : Watcher) (u : Update) (waiting : List Message)
      → w.cluster ≡ some cluster
      → refreshed_full h agents tasks here w ≡ ok u
      → IsLatest waiting u cluster
      → get_cluster (drain waiting Cache.new) cluster (lowercase job)
        ≡ row_of (build_job h job agents tasks here)
  unfolding drain
  get_cluster-delivered job cluster agents tasks here w u waiting known made l =
      let c : Cache = drain l.earlier Cache.new in
      let v : IsValid c = drain-IsValid l.earlier Cache.new l.earlier_sound new-IsValid in
      let (u', made', has) =
        get_cluster-refreshed_full h job cluster agents tasks here w c known v in
      let same : u' ≡ u = let e : ok u' ≡ ok u = sym made' ∙ made in cc in
      let sound : IsSound u =
        (subst (λ (r : Result Update). All (Mine w.cluster) (sent_of r)) made
          (refreshed_full-Mine h agents tasks here w)).0.1 in
      ap (λ (ms : List Message). get_cluster (drain ms Cache.new) cluster (lowercase job))
        l.waiting_are
      ∙ (ap (λ (x : Cache). get_cluster x cluster (lowercase job))
            (drain-append l.earlier ((true, u) ∷ l.later) Cache.new)
          ∙ (get_cluster-drain l.later ((apply true u c).0) cluster (lowercase job)
                (apply-IsValid true u c sound v) l.later_sound l.elsewhere
              ∙ subst
                  (λ (x : Update).
                    get_cluster ((apply true x c).0) cluster (lowercase job)
                    ≡ row_of (build_job h job agents tasks here))
                  same has))

-- For a watcher that knows its cluster, a message that `refreshed_full` makes of agents and tasks,
-- at least one address that `build_job` builds of them for a job, rounds of which none before the
-- last has a fatal error, and among whose messages that one is granted its memory and is followed
-- by messages of other clusters only (each with a sorted image), and a last round that receives a
-- datagram read as an A question of class IN for the job in small letters, which has no dot, that
-- cluster and the domain, with a flag word below 2^16 and no CNAME: `serve` then sends to the
-- sender of the datagram the header and question of the query with A records for the first of
-- these addresses, in order, as many as fit the limit of the query beside the OPT record, and the
-- OPT record if the query spoke EDNS.
pub serve-refreshed :
    (sys : System) (h : Hoplib) (server : Server) (before : List (Round sys)) (round : Round sys)
    (n : ℕ) (from : sys.Address) (msg : List ℕ) (q : Query) (job cluster : Text)
    (agents : List h.AgentInfo) (tasks : List h.AgentTasks) (here : Option Local) (w : Watcher)
    (u : Update) (ip : Ip) (ips : List Ip)
    → w.cluster ≡ some cluster
    → refreshed_full h agents tasks here w ≡ ok u
    → build_job h job agents tasks here ≡ ip ∷ ips
    → IsLatest (delivered sys (before ++ round ∷ [])) u cluster
    → All (GoesOn sys) before
    → round.received ≡ fine (n, from)
    → slice round.query 0 n ≡ some msg
    → parse_query msg ≡ query q
    → q.flags < 2 ^ 16
    → AsksFor server q (lowercase job) cluster
    → (p : List ℕ × ℕ) × (serve sys server (before ++ round ∷ []) (begin sys)
        ≡ ((serve sys server before (begin sys)).0 ++ (sent p, from) ∷ [], none))
      × (sent p
          ≡ image_bytes (
              finished q.edns
                (with_addresses (fitting q (limit_of q.edns) (ip ∷ ips)) (question_image q))))
serve-refreshed sys h server before round n from msg q job cluster agents tasks here w u ip ips
      known made has l goes got cut read small asks =
    let c : Cache = drain (delivered sys (before ++ round ∷ [])) Cache.new in
    let (p, buffer, served, sized, answered, _) =
      serve-query sys server before round n from msg q goes got cut read small in
    let row : get_cluster c cluster (lowercase job) ≡ some (ip ∷ ips) =
      get_cluster-delivered h job cluster agents tasks here w u _ known made l ∙ ap row_of has in
    let (p', answered', bytes) =
      handle-cluster server c msg buffer q (lowercase job) cluster ip ips read (omega arith) asks
        row in
    let same : p' ≡ p = let e : some p' ≡ some p = sym answered' ∙ answered in cc in
    let whole : min (limit_of q.edns) (length buffer) ≡ limit_of q.edns =
      omega (arith, limit_of-bounds q.edns) in
    (
      p,
      served,
      ap sent (sym same)
          ∙ (bytes
              ∙ ap
                  (λ (limit : ℕ). image_bytes (
                    finished q.edns
                      (with_addresses (fitting q limit (ip ∷ ips)) (question_image q))))
                  whole),
    )
