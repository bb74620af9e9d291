-- ===== src/Host/Decoded.antt =====
-- From an agent's tasks to the addresses that a client reads: the daemon between two ends of the wire.
use hopdns.Base.{
  ℕ, ◌/◌, ◌-◌, ◌+◌, ◌^◌, ◌<◌, min, List, [], ◌∷◌, ◌++◌, Option, none, some, ◌≡◌, subst, arith, All,
  All-take, length, slice,
}
use hopdns.Cache.{Ip}
use hopdns.Errors.{ok}
use hopdns.Host.{fine, System}
use hopdns.Host.Joined.{IsLatest, serve-refreshed}
use hopdns.Host.Serve.{Round, begin, serve}
use hopdns.Host.Turns.{delivered, GoesOn}
use hopdns.Server.{Server, limit_of}
use hopdns.Server.Asked.{
  Built, query_of, parse_query-Built, Built-AsksFor, decode-Built, fitting-few,
}
use hopdns.Server.Positive.{fitting}
use hopdns.Text.{Text, lowercase}
use hopdns.Watcher.{Watcher, Update}
use hopdns.Watcher.Build.{Hoplib, Local, build_job, refreshed_full}
use hopdns.Wire.Decode.{Message, a_records, decode}
use hopdns.Wire.Decode.Addresses.{Fits}
use hopdns.Wire.Reply.{reserve}

-- For a query that `encode_query` built for the name, of host bytes and dots, of a job in small
-- letters without a dot, a cluster and the domain, with an id and an EDNS size of 16 bits and no
-- CNAME for the name; a watcher that knows that cluster; a message that `refreshed_full` makes of
-- agents and tasks; at least one address that `build_job` builds of them for the job, all of 32
-- bits; rounds of which none before the last has a fatal error, and among whose messages that one
-- is granted its memory and is followed by messages of other clusters only, each with a sorted
-- image; and a last round that receives the query: `serve` sends to its sender one datagram that
-- `decode` reads as a message with the id of the query and, as addresses, the first of these, in
-- order, as many as fit the limit of the query.
pub serve-decoded :
    (sys : System) (h : Hoplib) (server : Server) (before : List (Round sys)) (round : Round sys)
    (n : ℕ) (from : sys.Address) (msg : List ℕ) (id : ℕ) (name : Text) (edns : Option ℕ)
    (job cluster : Text) (agents : List h.AgentInfo) (tasks : List h.AgentTasks)
    (here : Option Local) (w : Watcher) (u : Update) (ip : Ip) (ips : List Ip)
    (b : Built server (lowercase job) cluster id name edns msg)
    → w.cluster ≡ some cluster
    → refreshed_full h agents tasks here w ≡ ok u
    → build_job h job agents tasks here ≡ ip ∷ ips
    → All Fits (ip ∷ ips)
    → IsLatest (delivered sys (before ++ round ∷ [])) u cluster
    → All (GoesOn sys) before
    → round.received ≡ fine (n, from)
    → slice round.query 0 n ≡ some msg
    → (bytes : List ℕ) × (m : Message) × (serve sys server (before ++ round ∷ []) (begin sys)
        ≡ ((serve sys server before (begin sys)).0 ++ (bytes, from) ∷ [], none))
      × (decode bytes ≡ ok m)
      × (m.id ≡ id)
      × (a_records m
          ≡ fitting
              (query_of server (lowercase job) cluster id name edns msg b)
              (limit_of edns)
              (ip ∷ ips))
serve-decoded sys h server before round n from msg id name edns job cluster agents tasks here w u ip
      ips b known made has wide l goes got cut =
    let q = query_of server (lowercase job) cluster id name edns msg b in
    let (p, served, bytes) =
      serve-refreshed sys h server before round n from msg q job cluster agents tasks here w u ip
        ips known made has l goes got cut
        (parse_query-Built server (lowercase job) cluster id name edns msg b) (omega arith)
        (Built-AsksFor server (lowercase job) cluster id name edns msg b) in
    let limit = limit_of edns in
    let whole : min limit limit ≡ limit = omega arith in
    let few : length (fitting q limit (ip ∷ ips)) < 2 ^ 16 =
      subst (λ (k : ℕ). length (fitting q k (ip ∷ ips)) < 2 ^ 16) whole
        (fitting-few q limit (ip ∷ ips)) in
    let (m, decoded, id_is, same) =
      decode-Built server (lowercase job) cluster id name edns msg b (fitting q limit (ip ∷ ips)) _
        few (All-take Fits ((limit - (12 + length q.question + reserve edns)) / 16) (ip ∷ ips) wide)
        bytes in
    (_, m, served, decoded, id_is, same)
