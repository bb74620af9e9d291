-- ===== src/Host.antt =====
-- src/host.rs: the daemon of the host: how it starts. Sockets, threads and HTTP clients are a parameter.
pub mod Serve
pub mod Refresh
pub mod Watch
pub mod Starts
pub mod Drained
pub mod Turns
pub mod Answers
pub mod Replies
pub mod Refreshes
pub mod Driven
pub mod Fallback
pub mod Joined
pub mod Decoded
use hopdns.Base.{ℕ, List, [], ◌∷◌, ◌++◌, Option, none, some}
use hopdns.Cache.{Ip}
use hopdns.Cnames
use hopdns.Cnames.{Cnames}
use hopdns.Config.{Flags}
use hopdns.Config.Peers.{Peer, parse_listen, parse_peer}
use hopdns.Config.Yaml.{Config, parse_config, cname_table}
use hopdns.Errors.{Error, Result, ok, err}
use hopdns.Server
use hopdns.Server.{Server}
use hopdns.Text.{Text, codes}

-- The result of what can fail outside of the library: a value, or what failed.
pub data Outcome (E A : Type 0) : Type 0 where
  fine : A → Outcome E A
  fault : E → Outcome E A

infixl 5 ◌>>=◌ ◌>>◌
abbrev pub ◌>>=◌ : {E A B : Type 0} → Outcome E A → (A → Outcome E B) → Outcome E B
fault e >>= next = fault e
fine a >>= next = next a

abbrev pub ◌>>◌ : {E A B : Type 0} → Outcome E A → Outcome E B → Outcome E B
first >> next = first >>= λ _. next

-- `map_err`.
abbrev pub map_err : {E E' A : Type 0} → (E → E') → Outcome E A → Outcome E' A
map_err f (fine a) = fine a
map_err f (fault e) = fault (f e)

-- `io::ErrorKind`, as far as `serve` tells it apart.
pub data ErrorKind : Type 0 where
  would_block : ErrorKind
  timed_out : ErrorKind
  connection_refused : ErrorKind
  other_kind : ErrorKind

-- What the daemon calls of std and hoplib, and what comes back: files, UDP sockets, HTTP clients, threads.
pub record System : Type 1 where
  pub IoError : Type 0
  pub kind : IoError → ErrorKind
  pub HopError : Type 0
  pub Socket : Type 0
  pub Address : Type 0
  pub Client : Type 0
  pub read_to_string : Text → Outcome IoError Text
  pub bind : Ip → ℕ → Outcome IoError Socket
  pub set_read_timeout : Socket → Outcome IoError (Unit {0})
  pub local_addr : Socket → Outcome IoError Address
  pub new_client : Text → Option Text → Outcome HopError Client
  pub spawn_watcher : Peer → Client → Outcome IoError (Unit {0})

module _ (sys : System) where
  pub data HostError : Type 0 where
    core : Error → HostError
    io : Text → sys.IoError → HostError
    hop : sys.HopError → HostError

  -- `?` on a result of the library: `From<crate::Error>`.
  abbrev pub from_core : {A : Type 0} → Result A → Outcome HostError A
  from_core (ok a) = fine a
  from_core (err e) = fault (core e)

  abbrev pub io_error : {A : Type 0} → Text → Outcome sys.IoError A → Outcome HostError A
  io_error what = map_err (io what)

  unfoldable pub load_config : Text → Outcome HostError Config
  load_config path = do
    text ← io_error (codes "read config") (sys.read_to_string path)
    from_core (parse_config text)

  -- `updates` is a channel, see `Host.Serve`.
  pub record Daemon : Type 0 where
    pub sock : sys.Socket
    pub server : Server

  -- The table of `flags.config`.
  unfoldable pub start_cnames : Option Text → Outcome HostError Cnames
  start_cnames none = fine Cnames.default
  start_cnames (some path) = do config ← load_config path; fine (cname_table config)

  unfoldable pub start_socket : Text → Outcome HostError sys.Socket
  start_socket listen = do
    address ← from_core (parse_listen listen)
    sock ← io_error (codes "bind udp") (sys.bind (address.0) (address.1))
    io_error (codes "udp read timeout") (sys.set_read_timeout sock)
    fine sock

  -- The body of the loop over the peers: the watcher that was started.
  unfoldable pub start_peer : Text → Text → Outcome HostError (Peer × sys.Client)
  start_peer api_key raw = do
    peer ← from_core (parse_peer raw api_key)
    client ← map_err hop (sys.new_client peer.endpoint peer.api_key)
    io_error (codes "spawn watcher") (sys.spawn_watcher peer client)
    fine (peer, client)

  -- The loop. The watchers that were started run on, whatever comes after them.
  unfoldable pub start_peers :
      Text
      → List Text
      → List (Peer × sys.Client)
      → List (Peer × sys.Client) × Outcome HostError (Unit {0})
  start_peers api_key [] started = (started, fine tt)
  start_peers api_key (raw ∷ peers) started = elim (start_peer api_key raw) [
    | fault e ↦ (started, fault e)
    | fine w ↦ start_peers api_key peers (started ++ w ∷ [])
  ]

  -- `Daemon::start` up to the socket.
  unfoldable pub start_daemon : Flags → Outcome HostError Daemon
  start_daemon flags = do
    cnames ← start_cnames flags.config
    sock ← start_socket flags.listen
    fine (record { sock = sock; server = Server.set_cnames cnames (Server.new flags.domain) })

  -- `Daemon::start`: the watchers that run, and the daemon.
  unfoldable pub start : Flags → List (Peer × sys.Client) × Outcome HostError Daemon
  start flags = elim (start_daemon flags) [
    | fault e ↦ ([], fault e)
    | fine d ↦
        let (started, peered) = start_peers flags.api_key flags.peers [] in
        (started, elim peered [ fine _ ↦ fine d | fault e ↦ fault e ])
  ]

  unfoldable pub local_addr : Daemon → Outcome HostError sys.Address
  local_addr d = io_error (codes "udp local address") (sys.local_addr d.sock)
