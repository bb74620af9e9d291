-- ===== src/Tests/Hosts.antt =====
-- src/host.rs: a daemon whose system calls succeed, with a watcher of the cluster "east".
use hopdns.Base.{
  ℕ, ◌≤◌, true, List, [], ◌∷◌, ◌++◌, none, some, ◌≡◌, refl, ◌⊎◌, arith, All, length, if◌then◌else◌,
}
use hopdns.Cache
use hopdns.Cache.{Cache, contains}
use hopdns.Config.{Flags}
use hopdns.Errors.{ok}
use hopdns.Main.{main}
use hopdns.Main.Shown.{Exits, main-Exits}
use hopdns.Host.{fine, fault, ErrorKind, would_block, connection_refused, other_kind, System, io}
use hopdns.Host.Answers.{serve-query, serve-first_fatal}
use hopdns.Host.Driven.{IsDriven, watch-IsDriven}
use hopdns.Host.Fallback.{EachBuilt, FailedAt, refresh-next}
use hopdns.Host.Decoded.{serve-decoded}
use hopdns.Server.Asked.{query_of}
use hopdns.Wire.Decode
use hopdns.Wire.Decode.{a_records, decode}
use hopdns.Host.Joined.{IsLatest}
use hopdns.Host.Refresh.{Api, refresh}
use hopdns.Host.Replies.{IsReply, serve-IsReply}
use hopdns.Host.Serve.{Message, drain, goes_on, Round, begin, serve}
use hopdns.Host.Watch
use hopdns.Host.Watch.{Heard, Waited, heard, timeout, watch}
use hopdns.Server.{handle, limit_of}
use hopdns.Server.Positive.{fitting}
use hopdns.Text
use hopdns.Text.{Text, codes, text_eq, lowercase, to_ascii_lowercase, eq_ignore_ascii_case}
use hopdns.Watcher
use hopdns.Watcher.{Watcher, Action, Topic, Update, next, apply, cluster_of}
use hopdns.Watcher.Build.{
  build_job, refreshed_full, add_job_agents, add_job_tasks, task_ip, slot_address, agent_ip,
  extract_ip, behind_scheme, parse_ipv4, parse_octet, leading_zero, octet_value, push_unique,
  slot_of,
}
use hopdns.Watcher.Refreshed.{get_cluster-refreshed_full}
use hopdns.Wire.Reply.Finish.{sent}
use hopdns.Wire.Reply.Kept.{IsAnswer}
use hopdns.Tests.Caches.{two_clusters, two_clusters-IsValid}
use hopdns.Tests.Servers.{sample_server, east_datagram, east_query, east_read, east-Built}
use hopdns.Tests.Watchers.{found, found_cluster, sample_hoplib, agents, tasks}

-- Errors are their kinds; sockets, addresses and clients are numbers.
abbrev pub sample_system : System
sample_system = record {
  IoError = ErrorKind;
  kind = λ e. e;
  HopError = Unit;
  Socket = ℕ;
  Address = ℕ;
  Client = ℕ;
  read_to_string = λ path. fault other_kind;
  bind = λ ip port. fine port;
  set_read_timeout = λ sock. fine tt;
  local_addr = λ sock. fine sock;
  new_client = λ endpoint key. fine 1;
  spawn_watcher = λ peer client. fine tt;
}

-- The refresh of "east", and a message of "west" behind it.
abbrev image : Update
image =
    (get_cluster-refreshed_full sample_hoplib (codes "web") (codes "east") agents tasks none found
      two_clusters found_cluster two_clusters-IsValid).0

image_made : refreshed_full sample_hoplib agents tasks none found ≡ ok image
image_made =
    (get_cluster-refreshed_full sample_hoplib (codes "web") (codes "east") agents tasks none found
      two_clusters found_cluster two_clusters-IsValid).1

abbrev pub western : Message
western = (true, Update.set (codes "west") (codes "web") (5 ∷ []))

abbrev waiting : List Message
waiting = (true, image) ∷ western ∷ []

waiting-IsLatest : IsLatest waiting image (codes "east")
unfolding cluster_of text_eq
waiting-IsLatest = record {
  earlier = [];
  later = western ∷ [];
  waiting_are = refl;
  earlier_sound = tt;
  later_sound = (tt, tt);
  elsewhere = (refl, tt);
}

-- Nothing comes in, and then the query.
abbrev quiet : Round sample_system
quiet = record { waiting = []; query = []; received = fault would_block }

abbrev asking : Round sample_system
asking = record { waiting = waiting; query = east_datagram; received = fine (36, 7) }

abbrev rounds : List (Round sample_system)
rounds = quiet ∷ asking ∷ []

web_built : build_job sample_hoplib (codes "web") agents tasks none ≡ 0x0A000001 ∷ 0x0A000002 ∷ []
unfolding build_job add_job_agents add_job_tasks eq_ignore_ascii_case text_eq lowercase
    to_ascii_lowercase task_ip slot_address agent_ip extract_ip behind_scheme Text.strip_prefix
    parse_ipv4 Text.split Text.split_pieces Text.rsplit_once parse_octet Text.is_empty contains
    leading_zero octet_value push_unique slot_of
web_built = refl

serve-query_example :
    (p : List ℕ × ℕ) × (buffer : List ℕ) × (serve sample_system sample_server
        (quiet ∷ asking ∷ [])
        (begin sample_system)
      ≡ (
        (serve sample_system sample_server (quiet ∷ []) (begin sample_system)).0
            ++ (sent p, 7) ∷ [],
        none,
      ))
    × (length buffer ≡ 1232)
    × (handle sample_server (drain waiting Cache.new) east_datagram buffer ≡ some p)
    × IsAnswer east_query (limit_of east_query.edns) p
unfolding goes_on
serve-query_example =
    serve-query sample_system sample_server (quiet ∷ []) asking 36 7 east_datagram east_query
      (refl, tt) refl refl east_read (omega arith)

serve-IsReply_example :
    All
      (IsReply sample_system sample_server rounds)
      (serve sample_system sample_server rounds (begin sample_system)).0
serve-IsReply_example = serve-IsReply sample_system sample_server rounds

-- A refused answer is no reason to stop, and another error is.
abbrev broken : Round sample_system
broken = record { waiting = []; query = []; received = fault other_kind }

abbrev refused : Round sample_system
refused = record { waiting = []; query = []; received = fault connection_refused }

serve-first_fatal_example :
    (serve sample_system sample_server (refused ∷ broken ∷ asking ∷ []) (begin sample_system)).1
    ≡ some (io (codes "udp recv") other_kind)
unfolding goes_on
serve-first_fatal_example =
    serve-first_fatal sample_system sample_server (refused ∷ broken ∷ asking ∷ [])
      (begin sample_system)

abbrev flags : Flags
flags = record {
  listen = codes "localhost:53";
  peers = codes "http://a:8080" ∷ codes "ftp://b" ∷ codes "http://c:8080" ∷ [];
  domain = codes "corp";
  api_key = [];
  config = none;
}

-- The agent knows its cluster and the first of two jobs.
abbrev pub api : Api (Unit {0}) sample_hoplib
api = record {
  status = fine (codes "East");
  agents = fine agents;
  tasks = fine tasks;
  job_status = λ job. if text_eq job (codes "web") then fine (agents, tasks) else fault tt;
}

abbrev events : List (Watch.Round sample_system sample_hoplib)
events = turn ∷ turn ∷ turn ∷ []
  where
    turn : Watch.Round sample_system sample_hoplib
    turn = record {
      now = 10;
      later = 11;
      api = api;
      grant = true;
      recv = some (Heard.event (some Topic.ping));
      recv_timeout = λ time. heard (Heard.event (some Topic.ping));
      spawned = fine tt;
    }

watch-IsDriven_example : IsDriven sample_system sample_hoplib (
    watch sample_system sample_hoplib events
      (Watch.begin sample_system sample_hoplib (codes "http://a:8080")))
watch-IsDriven_example = watch-IsDriven sample_system sample_hoplib (codes "http://a:8080") events

refresh-next_example :
    (w' : Watcher) × (us : List Update) × (refresh
        (Unit {0})
        sample_hoplib
        api
        50
        (Watcher.Refresh.jobs (codes "web" ∷ codes "db" ∷ []))
        found
      ≡ (w', us))
    × (((w' ≡ found)
          × EachBuilt (Unit {0}) sample_hoplib api found (codes "web" ∷ codes "db" ∷ []) us)
        ⊎ (FailedAt (Unit {0}) sample_hoplib api found (codes "web" ∷ codes "db" ∷ []) us
            × ((later : ℕ) → 50 ≤ later → (next later w').1 ≡ Action.refresh Watcher.Refresh.full)))
refresh-next_example =
    refresh-next (Unit {0}) sample_hoplib api 50 (codes "web" ∷ codes "db" ∷ []) found
      (codes "east") found_cluster

abbrev wrong_arguments : List Text
wrong_arguments = codes "-peer=http://a" ∷ codes "--verbose" ∷ []

main-Exits_example :
    Exits sample_system rounds wrong_arguments (main sample_system rounds wrong_arguments)
main-Exits_example = main-Exits sample_system rounds wrong_arguments

serve-decoded_example :
    (bytes : List ℕ) × (m : Decode.Message) × (serve sample_system sample_server
        (quiet ∷ asking ∷ [])
        (begin sample_system)
      ≡ (
        (serve sample_system sample_server (quiet ∷ []) (begin sample_system)).0 ++ (bytes, 7) ∷ [],
        none,
      ))
    × (decode bytes ≡ ok m)
    × (m.id ≡ 9)
    × (a_records m
        ≡ fitting
            (query_of sample_server
              (codes "web")
              (codes "east")
              9
              (codes "web.east.hop.local")
              none
              east_datagram
              east-Built)
            (limit_of none)
            (0x0A000001 ∷ 0x0A000002 ∷ []))
unfolding goes_on lowercase to_ascii_lowercase
serve-decoded_example =
    serve-decoded sample_system sample_hoplib sample_server (quiet ∷ []) asking 36 7 east_datagram 9
      (codes "web.east.hop.local") none (codes "web") (codes "east") agents tasks none found image
      0x0A000001 (0x0A000002 ∷ []) east-Built found_cluster image_made web_built
      (omega arith, (omega arith, tt)) waiting-IsLatest (refl, tt) refl refl
