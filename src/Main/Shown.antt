-- ===== src/Main/Shown.antt =====
-- src/bin/hopdns.rs: what the command ends with and what it prints, for all arguments.
use hopdns.Base.{
  ℕ, ◌+◌, ◌∷◌, ◌++◌, length, arith, List, Option, none, some, ◌≡◌, ◌≢◌, ◌⊎◌, inl, inr, refl, ap,
  ◌∙◌, get_elem?, ◌>>=◌,
}
use hopdns.Config.{Flags, parse}
use hopdns.Config.Blames.{Blames, parse-Blames}
use hopdns.Errors.{Error, Result, ok, err, help, unknown_flag, missing_value, unexpected_argument}
use hopdns.Host.{Outcome, fine, fault, System, HostError, Daemon, start}
use hopdns.Host.Serve.{Round, begin, serve}
use hopdns.Main.{place_of, usage, wrong, fatal, Ran, exit, running, run, main_flags, main}
use hopdns.Text.{Text}
use hopdns.Wire.Words.{get_elem?-append_add}

-- The argument at the place of an error; none for an error without a place.
abbrev pub ShownAt : Error → List Text → Option Text → Type 0
ShownAt (unknown_flag at) args shown =
    (arg : Text) × (get_elem? args at ≡ some arg) × (shown ≡ some arg)
ShownAt (missing_value at) args shown =
    (arg : Text) × (get_elem? args at ≡ some arg) × (shown ≡ some arg)
ShownAt (unexpected_argument at) args shown =
    (arg : Text) × (get_elem? args at ≡ some arg) × (shown ≡ some arg)
ShownAt _ args shown = shown ≡ none

-- The argument behind those before it.
first_at :
    (args before rest : List Text) (arg : Text) (after : List Text) (at : ℕ)
    → args ≡ before ++ rest
    → rest ≡ arg ∷ after
    → at ≡ length before
    → get_elem? args at ≡ some arg
first_at args before rest arg after at parts first here =
    let whole : args ≡ before ++ arg ∷ after = parts ∙ ap (λ (r : List Text). before ++ r) first in
    let place : at ≡ length before + 0 = omega (arith, here) in
    ap (λ (a : List Text). get_elem? a at) whole
    ∙ (ap (get_elem? (before ++ arg ∷ after)) place ∙ get_elem?-append_add before (arg ∷ after) 0)

Blames-ShownAt :
    (e : Error) (args : List Text) → Blames e args → ShownAt e args (place_of e >>= get_elem? args)
unfolding place_of
Blames-ShownAt (unknown_flag at) args b =
    let (here, f, _, _) = b.blamed in
    let found = first_at args b.before b.rest f.arg f.after at b.args_are f.rest_is here in
    (f.arg, found, found)
Blames-ShownAt (missing_value at) args b =
    let (here, f, _, _, _) = b.blamed in
    let found = first_at args b.before b.rest f.arg f.after at b.args_are f.rest_is here in
    (f.arg, found, found)
Blames-ShownAt (unexpected_argument at) args b =
    let (here, arg, after, first, _) = b.blamed in
    let found = first_at args b.before b.rest arg after at b.args_are first here in
    (arg, found, found)
Blames-ShownAt _ args b = refl

module _ (sys : System) (rounds : List (Round sys)) where
  -- The error of the start, or of the loop of the daemon that started.
  abbrev pub Ended : Flags → HostError sys → Type 0
  Ended flags e =
      ((start sys flags).1 ≡ fault e)
      ⊎ ((d : Daemon sys) × ((start sys flags).1 ≡ fine d)
          × ((serve sys d.server rounds (begin sys)).1 ≡ some e))

  -- A daemon that started, and whose loop goes on.
  abbrev pub StillServes : Flags → Type 0
  StillServes flags =
      (d : Daemon sys) × ((start sys flags).1 ≡ fine d)
      × ((serve sys d.server rounds (begin sys)).1 ≡ none)

  abbrev pub Exits : List Text → Ran sys → Type 0
  Exits args r =
      ((parse args ≡ err help) × (r ≡ exit 0 usage))
      ⊎ (((e : Error) × (shown : Option Text) × (parse args ≡ err e)
            × (e ≢ help)
            × ShownAt e args shown
            × (r ≡ exit 2 (wrong shown e)))
          ⊎ ((flags : Flags) × (parse args ≡ ok flags)
              × (((e : HostError sys) × Ended flags e × (r ≡ exit 1 (fatal e)))
                  ⊎ (StillServes flags × (r ≡ running)))))

  run-Ended :
      (flags : Flags)
      → ((e : HostError sys) × Ended flags e × (run sys rounds flags ≡ some e))
        ⊎ (StillServes flags × (run sys rounds flags ≡ none))
  unfolding run
  run-Ended flags = go ((start sys flags).1) refl
    where
      served :
          (d : Daemon sys) (o : Option (HostError sys))
          → (start sys flags).1 ≡ fine d
          → (serve sys d.server rounds (begin sys)).1 ≡ o
          → ((e : HostError sys) × Ended flags e × (o ≡ some e)) ⊎ (StillServes flags × (o ≡ none))
      served d (some e) began ends = inl (e, inr (d, began, ends), refl)
      served d none began goes = inr ((d, began, goes), refl)

      go :
          (o : Outcome (HostError sys) (Daemon sys))
          → (start sys flags).1 ≡ o
          → ((e : HostError sys) × Ended flags e
              × ((elim o as (λ _. Option (HostError sys)) [
                | fault e ↦ some e
                | fine d ↦ (serve sys d.server rounds (begin sys)).1
              ])
                  ≡ some e))
            ⊎ (StillServes flags
                × ((elim o as (λ _. Option (HostError sys)) [
                  | fault e ↦ some e
                  | fine d ↦ (serve sys d.server rounds (begin sys)).1
                ])
                    ≡ none))
      go (fault e) failed = inl (e, inl failed, refl)
      go (fine d) began = served d ((serve sys d.server rounds (begin sys)).1) began refl

  main_flags-Exits :
      (flags : Flags)
      → ((e : HostError sys) × Ended flags e × (main_flags sys rounds flags ≡ exit 1 (fatal e)))
        ⊎ (StillServes flags × (main_flags sys rounds flags ≡ running))
  unfolding main_flags
  main_flags-Exits flags = elim (run-Ended flags) [
    | inl (e, ended, ran) ↦ inl (e, ended, rw (ran, main_flags) refl)
    | inr (serves, ran) ↦ inr (serves, rw (ran, main_flags) refl)
  ]

  -- The command does one of four things. If `Flags::parse` asks for help, it prints the usage with
  -- code 0. If `Flags::parse` gives another error, it prints that with code 2, and with the
  -- argument that the error is about: for an unknown flag, a missing value or an unexpected
  -- argument the one at its place, and for the others none. If the flags were read and `start` or
  -- `serve` gives an error, it prints that with code 1. If the flags were read and neither does,
  -- it keeps running.
  pub main-Exits : (args : List Text) → Exits args (main sys rounds args)
  unfolding main
  main-Exits args = go (parse args) refl
    where
      go :
          (r : Result Flags)
          → parse args ≡ r
          → Exits args (elim r as (λ _. Ran sys) [
            | ok flags ↦ main_flags sys rounds flags
            | err help ↦ exit 0 usage
            | err x ↦ exit 2 (wrong (place_of x >>= get_elem? args) x)
          ])
      go (ok flags) read = inr (inr (flags, read, main_flags-Exits flags))
      go (err help) read = inl (read, refl)
      go (err x) read = inr (
          inl (
            x,
            _,
            read,
            (λ (helps : x ≡ help). cc),
            Blames-ShownAt x args (parse-Blames args x read),
            refl,
          ))
