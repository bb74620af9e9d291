-- ===== src/Main.antt =====
-- src/bin/hopdns.rs: the command of the daemon: its exit code and what it prints.
pub mod Shown
use hopdns.Base.{ℕ, List, Option, none, some, get_elem?, ◌>>=◌}
use hopdns.Config.{Flags, parse}
use hopdns.Errors.{Error, Result, ok, err, help, unknown_flag, missing_value, unexpected_argument}
use hopdns.Host.{Outcome, fine, fault, System, HostError, start}
use hopdns.Host.Serve.{Round, begin, serve}
use hopdns.Text.{Text}

-- The place of the argument that an error is about.
unfoldable pub place_of : Error → Option ℕ
place_of (unknown_flag at) = some at
place_of (missing_value at) = some at
place_of (unexpected_argument at) = some at
place_of _ = none

module _ (sys : System) where
  -- The usage on stdout; an error with its argument, and the usage, on stderr; the error of the daemon.
  pub data Printed : Type 0 where
    usage : Printed
    wrong : Option Text → Error → Printed
    fatal : HostError sys → Printed

  -- The exit code with what was printed, or a daemon that still runs.
  pub data Ran : Type 0 where
    exit : ℕ → Printed → Ran
    running : Ran

  -- `Daemon::start(&flags).and_then(Daemon::serve)` over these rounds; its error, if it ended.
  unfoldable pub run : List (Round sys) → Flags → Option (HostError sys)
  run rounds flags = elim ((start sys flags).1) [
    | fault e ↦ some e
    | fine d ↦ (serve sys d.server rounds (begin sys)).1
  ]

  unfoldable pub main_flags : List (Round sys) → Flags → Ran
  main_flags rounds flags = elim (run rounds flags) [ some e ↦ exit 1 (fatal e) | none ↦ running ]

  unfoldable pub main : List (Round sys) → List Text → Ran
  main rounds args = elim (parse args) [
    | ok flags ↦ main_flags rounds flags
    | err help ↦ exit 0 usage
    | err e ↦ exit 2 (wrong (place_of e >>= get_elem? args) e)
  ]
