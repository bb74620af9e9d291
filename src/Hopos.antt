-- ===== src/Hopos.antt =====
-- src/bin/hopdns-hopos.rs: the daemon as a resident of HopOS: its settings and its start. The network
-- stack, the executor and the HTTP clients are a parameter.
pub mod Serve
pub mod Watch
pub mod Selftest
pub mod Started
pub mod Mailbox
pub mod Posted
pub mod Cached
pub mod Markers
pub mod Alike
pub mod Refreshes
pub mod Driven
pub mod Tried
pub mod Tested
use hopdns.Base.{
  ℕ, suc, ◌+◌, ◌*◌, Bool, true, false, List, [], ◌∷◌, ◌++◌, Option, none, some, ◌==◌, if◌then◌else◌,
  length,
}
use hopdns.Cache.{Ip}
use hopdns.Config.Peers.{Peer, parse_u16, parse_peer, peer_list, with_host_alias}
use hopdns.Errors.{Result, ok, err}
use hopdns.Host.{Outcome, fine, fault}
use hopdns.Server
use hopdns.Server.{Server, default_domain}
use hopdns.Text.{Text, codes}
use hopdns.Watcher.Build.{Local}

abbrev pub default_port : ℕ
default_port = 5353

abbrev pub default_peer : Text
default_peer = codes "http://HOP:9080"

abbrev pub hop_alias : Text
hop_alias = codes "HOP"

abbrev pub hop_slot : ℕ
hop_slot = 1

abbrev pub max_peers : ℕ
max_peers = 4

-- `port_of`; what is not a port is logged.
unfoldable pub port_of : Option Text → ℕ
port_of none = default_port
port_of (some text) = elim (parse_u16 text) [
  | none ↦ default_port
  | some p ↦ if p == 0 then default_port else p
]

-- `Option::or` and `unwrap_or`.
abbrev pub or_else : Option Text → Option Text → Option Text
or_else (some t) _ = some t
or_else none other = other

abbrev pub unwrap_or : Option Text → Text → Text
unwrap_or (some t) _ = t
unwrap_or none t = t

-- The env of the jobspec, as far as `resident` reads it.
pub record Settings : Type 0 where
  pub port : ℕ
  pub domain : Text
  pub key : Text
  pub peers : Text
  pub node : Option Text
  pub selftest : Option Text

unfoldable pub settings_of : (Text → Option Text) → Settings
settings_of env = record {
  port = port_of (env (codes "ER_PORT_DNS"));
  domain = unwrap_or (env (codes "HOPDNS_DOMAIN")) default_domain;
  key = unwrap_or (or_else (env (codes "HOPDNS_API_KEY")) (env (codes "HOP_API_KEY"))) [];
  peers = unwrap_or (or_else (env (codes "HOPDNS_PEER")) (env (codes "HOPDNS_PEERS"))) default_peer;
  node = env (codes "ER_ATTR_NODE_ID");
  selftest = env (codes "HOPDNS_SELFTEST");
}

-- What a task is spawned for.
pub data Task (Client : Type 0) : Type 0 where
  reads : ℕ → Client → Task Client
  watches : ℕ → Text → Client → Task Client
  tests : Text → ℕ → Task Client

-- The number of an `Ipv4Addr` of these bytes.
abbrev pub address_of : ℕ × ℕ × ℕ × ℕ → Ip
address_of (a, b, c, d) = ((a * 256 + b) * 256 + c) * 256 + d

-- What the resident calls of applib and hoplib.
pub record Resident : Type 1 where
  pub NetError : Type 0
  pub Net : Type 0
  pub Socket : Type 0
  pub Client : Type 0
  pub up : Outcome NetError Net
  pub udp_bind : Net → ℕ → Outcome NetError Socket
  pub Address : Type 0
  pub slot_ip : ℕ → ℕ × ℕ × ℕ × ℕ
  pub new_client : Text → Option Text → Outcome NetError Client
  pub spawn : Task Client → Outcome NetError (Unit {0})

module _ (sys : Resident) where
  -- `Node::local`.
  unfoldable pub local_of : Option Text → Option Local
  local_of none = none
  local_of (some node) =
      some (record { node = node; slot_ip = λ slot. address_of (sys.slot_ip slot) })

  -- The tasks that run.
  abbrev pub Tasks : Type 0
  Tasks = List (Task sys.Client)

  -- `exec.spawn(first).and_then(|()| exec.spawn(second))`: what runs, and whether both do.
  unfoldable pub spawn_both : Task sys.Client → Task sys.Client → Tasks × Bool
  spawn_both first second = elim (sys.spawn first) [
    | fault _ ↦ ([], false)
    | fine _ ↦ elim (sys.spawn second) [
      | fault _ ↦ (first ∷ [], false)
      | fine _ ↦ (first ∷ second ∷ [], true)
    ]
  ]

  unfoldable pub start_client : ℕ → Peer → Tasks × Bool
  start_client inbox peer = elim (sys.new_client peer.endpoint peer.api_key) [
    | fault _ ↦ ([], false)
    | fine client ↦ spawn_both (Task.reads inbox client) (Task.watches inbox peer.endpoint client)
  ]

  -- The body of the loop; a peer that does not start is logged.
  unfoldable pub start_one : Text → ℕ → Text → Tasks × Bool
  start_one key inbox raw =
      elim (parse_peer (with_host_alias raw hop_alias (sys.slot_ip hop_slot)) key) [
        | err _ ↦ ([], false)
        | ok peer ↦ start_client inbox peer
      ]

  -- The loop over `peer_list(list).zip(HEARD.iter())`, from this inbox on.
  unfoldable pub start_each : Text → List Text → ℕ → List ℕ → Tasks × ℕ
  start_each key [] n inboxes = ([], n)
  start_each key (raw ∷ raws) n [] = ([], n)
  start_each key (raw ∷ raws) n (inbox ∷ inboxes) =
      let (tasks, started) = start_one key inbox raw in
      let (later, n') = start_each key raws (if started then n + 1 else n) inboxes in
      (tasks ++ later, n')

  unfoldable pub inboxes : List ℕ
  inboxes = 0 ∷ 1 ∷ 2 ∷ 3 ∷ []

  -- `start_peers`: the tasks, and how many peers were started.
  unfoldable pub start_peers : Text → Text → Tasks × ℕ
  start_peers list key = start_each key (peer_list list) 0 inboxes

  -- What runs when `resident` gets to `serve`.
  pub record Up : Type 0 where
    pub sock : sys.Socket
    pub server : Server
    pub port : ℕ
    pub here : Option Local
    pub tasks : Tasks
    pub started : ℕ

  unfoldable pub selftest_tasks : Option Text → Server → ℕ → Tasks
  selftest_tasks none server port = []
  selftest_tasks (some job) server port =
      let task = Task.tests (job ++ (b'.' ∷ server.domain)) port in
      elim (sys.spawn task) [ fine _ ↦ task ∷ [] | fault _ ↦ [] ]

  unfoldable pub resident_on : Settings → sys.Net → Outcome ℕ Up
  resident_on s net = elim (sys.udp_bind net s.port) [
    | fault _ ↦ fault 1
    | fine sock ↦
        let server = Server.new s.domain in
        let (tasks, started) = start_peers s.peers s.key in
        fine (record {
          sock = sock;
          server = server;
          port = s.port;
          here = local_of s.node;
          tasks = tasks ++ selftest_tasks s.selftest server s.port;
          started = started;
        })
  ]

  -- `resident`: the exit code, or what serves.
  unfoldable pub resident : (Text → Option Text) → Outcome ℕ Up
  resident env = elim (sys.up) [ fault _ ↦ fault 1 | fine net ↦ resident_on (settings_of env) net ]
