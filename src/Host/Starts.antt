-- ===== src/Host/Starts.antt =====
-- src/host.rs: what a daemon that started has, and which watchers run when it did not.
use hopdns.Base.{ℕ, List, [], ◌∷◌, ◌++◌, Option, none, some, ◌≡◌, ◌⊎◌}
use hopdns.Cache.{Ip}
use hopdns.Cnames
use hopdns.Cnames.{Cnames}
use hopdns.Config.{Flags}
use hopdns.Config.Peers.{Peer, parse_listen}
use hopdns.Config.Yaml.{Config, parse_config, cname_table}
use hopdns.Errors.{ok}
use hopdns.Host.{Outcome, fine, fault, System, HostError, Daemon, start_peer}
use hopdns.Server
use hopdns.Server.{Server}
use hopdns.Text
use hopdns.Text.{Text}

module _ (sys : System) where
  -- Each peer has its watcher, in order.
  abbrev pub EachStarted : Text → List Text → List (Peer × sys.Client) → Type 0
  EachStarted api_key [] ws = ws ≡ []
  EachStarted api_key (raw ∷ peers) [] = ⊥
  EachStarted api_key (raw ∷ peers) (w ∷ ws) =
      (start_peer sys api_key raw ≡ fine w) × EachStarted api_key peers ws

  -- The peers up to the first that does not start have their watchers; `e` is its error.
  pub record StoppedAt (api_key : Text) (peers : List Text) (ws : List (Peer × sys.Client))
      (e : HostError sys) : Type 0 where
    pub before : List Text
    pub bad : Text
    pub after : List Text
    pub peers_are : peers ≡ before ++ bad ∷ after
    pub each : EachStarted api_key before ws
    pub fails : start_peer sys api_key bad ≡ fault e

  -- All are started, or those before the first that is not.
  abbrev pub StartedFrom :
      Text
      → List Text
      → List (Peer × sys.Client)
      → List (Peer × sys.Client) × Outcome (HostError sys) (Unit {0})
      → Type 0
  StartedFrom api_key peers started p =
      (ws : List (Peer × sys.Client)) × (p.0 ≡ started ++ ws)
      × (((p.1 ≡ fine tt) × EachStarted api_key peers ws)
          ⊎ ((e : HostError sys) × (p.1 ≡ fault e) × StoppedAt api_key peers ws e))

  -- The static CNAMEs are those of the file, or none without one.
  abbrev pub FromFile : Option Text → Cnames → Type 0
  FromFile none cnames = cnames ≡ Cnames.default
  FromFile (some path) cnames =
      (text : Text) × (config : Config) × (sys.read_to_string path ≡ fine text)
      × (parse_config text ≡ ok config)
      × (cnames ≡ cname_table config)

  -- What a daemon has: the socket of its listen address, the server of its domain and its file.
  pub record IsDaemon (flags : Flags) (d : Daemon sys) : Type 0 where
    pub ip : Ip
    pub port : ℕ
    pub listens : parse_listen flags.listen ≡ ok (ip, port)
    pub bound : sys.bind ip port ≡ fine d.sock
    pub cnames : FromFile flags.config d.server.cnames
    pub domain_is : d.server.domain ≡ (Server.new flags.domain).domain
