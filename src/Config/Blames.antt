-- ===== src/Config/Blames.antt =====
-- `Flags::parse`: what an error says of the arguments, and what comes in front of where it is found.
use hopdns.Base.{
  ℕ, ◌+◌, Bool, true, false, not, List, [], ◌∷◌, ◌++◌, Option, none, some, ◌≡◌, ◌≢◌, refl, sym, ap,
  ◌∙◌, subst, arith, length, append_assoc, append-nil, length-append, inl, inr, All, All-append,
  if◌then◌else◌, Bool-cases, Option-cases,
}
use hopdns.Config.{
  Flags, default_flags, flag_of, name_of, is_help, is_known, set_flag, parse_args, parse,
}
use hopdns.Config.Args.{
  Dashed, Undashed, Named, HelpName, FlagName, flag_of-Dashed, flag_of-Undashed, name_of-Named,
  is_help-HelpName, is_known-FlagName,
}
use hopdns.Errors.{
  Error, Result, ok, err, help, unknown_flag, missing_value, unexpected_argument, no_peer,
}
use hopdns.Text.{Text, codes, text_eq, is_empty}
use hopdns.Text.Order.{text_eq_iff}
use hopdns.Text.Space.{trim}

-- The settings that these arguments make, a flag with its value behind `=` or in the next argument.
pub data Reads : List Text → List (Text × Text) → Type 0 where
  nothing : Reads [] []
  inline :
      {args : List Text} {sets : List (Text × Text)} (arg flag name value : Text)
      → Reads args sets
      → Dashed arg flag
      → Named flag (name, some value)
      → FlagName name
      → Reads (args ++ arg ∷ []) (sets ++ (name, value) ∷ [])
  apart :
      {args : List Text} {sets : List (Text × Text)} (arg name value : Text)
      → Reads args sets
      → Dashed arg name
      → Named name (name, none)
      → FlagName name
      → Reads (args ++ arg ∷ value ∷ []) (sets ++ (name, value) ∷ [])

-- No setting is a peer, but for blanks.
abbrev pub NoPeers : List (Text × Text) → Type 0
NoPeers sets = All (λ s. s.0 ≡ codes "peer" → is_empty (trim (s.1)) ≡ true) sets

-- The first of these arguments is a flag.
pub record FlagFirst (rest : List Text) : Type 0 where
  pub arg : Text
  pub after : List Text
  pub flag : Text
  pub name : Text
  pub value : Option Text
  pub rest_is : rest ≡ arg ∷ after
  pub dashed : Dashed arg flag
  pub named : Named flag (name, value)

-- What an error says: `before` made the settings, and `rest` follows.
abbrev pub Blamed : Error → List Text → List Text → List (Text × Text) → Type 0
Blamed help before rest sets = (f : FlagFirst rest) × HelpName f.name
Blamed (unknown_flag at) before rest sets =
    (at ≡ length before) × (f : FlagFirst rest) × (HelpName f.name → ⊥) × (FlagName f.name → ⊥)
Blamed (missing_value at) before rest sets =
    (at ≡ length before)
    × (f : FlagFirst rest) × FlagName f.name
    × (f.value ≡ none)
    × (f.after ≡ [])
Blamed (unexpected_argument at) before rest sets =
    (at ≡ length before) × (arg : Text) × (after : List Text) × (rest ≡ arg ∷ after) × Undashed arg
Blamed no_peer before rest sets = (rest ≡ []) × NoPeers sets
Blamed _ before rest sets = ⊥

pub record Blames (e : Error) (args : List Text) : Type 0 where
  pub before : List Text
  pub rest : List Text
  pub sets : List (Text × Text)
  pub args_are : args ≡ before ++ rest
  pub reads : Reads before sets
  pub blamed : Blamed e before rest sets

-- What a result says.
abbrev Told : List Text → Result Flags → Type 0
Told args (ok f) = (sets : List (Text × Text)) × Reads args sets × (f.peers ≡ [] → NoPeers sets)
Told args (err e) = Blames e args

-- A flag waits for its value.
record Waits (before : List Text) (sets : List (Text × Text)) (place : ℕ) (name : Text)
    : Type 0 where
  earlier : List Text
  arg : Text
  before_is : before ≡ earlier ++ arg ∷ []
  place_is : place ≡ length earlier
  dashed : Dashed arg name
  named : Named name (name, none)
  known : FlagName name
  reads : Reads earlier sets

abbrev State : List Text → List (Text × Text) → Option (ℕ × Text) → Type 0
State before sets none = Reads before sets
State before sets (some (place, name)) = Waits before sets place name

-- A list with something at its end is not empty.
concat-some : {A : Type 0} (xs : List A) (x : A) → xs ++ x ∷ [] ≢ []
concat-some [] x h = cc
concat-some (y ∷ xs) x h = cc

-- What is no peer leaves the peers as they are.
other_name :
    (name key : Text) (value : Text)
    → text_eq name key ≡ true
    → text_eq key (codes "peer") ≡ false
    → name ≡ codes "peer"
    → is_empty (trim value) ≡ true
other_name name key value is differs peer =
    let same : name ≡ key = (text_eq_iff name key).0 is in
    let e = (text_eq_iff key (codes "peer")).1 (sym same ∙ peer) in absurd cc

set_flag-peers :
    (name value : Text) (f : Flags)
    → (set_flag name value f).peers ≡ []
    → (f.peers ≡ []) × (name ≡ codes "peer" → is_empty (trim value) ≡ true)
unfolding set_flag text_eq
set_flag-peers name value f h =
    listen (text_eq name (codes "listen")) (text_eq name (codes "domain"))
      (text_eq name (codes "api-key")) (text_eq name (codes "config")) (is_empty (trim value)) refl
      refl refl refl refl h
  where
    listen :
        (a b c d blank : Bool)
        → text_eq name (codes "listen") ≡ a
        → text_eq name (codes "domain") ≡ b
        → text_eq name (codes "api-key") ≡ c
        → text_eq name (codes "config") ≡ d
        → is_empty (trim value) ≡ blank
        → (if a
            then record f { listen = value }
            else if b
            then record f { domain = value }
            else if c
            then record f { api_key = value }
            else if d
            then record f { config = some value }
            else if not blank
            then record f { peers = f.peers ++ trim value ∷ [] }
            else f).peers
          ≡ []
        → (f.peers ≡ []) × (name ≡ codes "peer" → is_empty (trim value) ≡ true)
    listen true b c d blank ea eb ec ed e h = (h, other_name name (codes "listen") value ea refl)
    listen false true c d blank ea eb ec ed e h =
        (h, other_name name (codes "domain") value eb refl)
    listen false false true d blank ea eb ec ed e h =
        (h, other_name name (codes "api-key") value ec refl)
    listen false false false true blank ea eb ec ed e h =
        (h, other_name name (codes "config") value ed refl)
    listen false false false false true ea eb ec ed e h = (h, λ _. e)
    listen false false false false false ea eb ec ed e h =
        absurd (concat-some f.peers (trim value) h)

set_flag-NoPeers :
    (name value : Text) (f : Flags) (sets : List (Text × Text))
    → (f.peers ≡ [] → NoPeers sets)
    → (set_flag name value f).peers ≡ []
    → NoPeers (sets ++ (name, value) ∷ [])
set_flag-NoPeers name value f sets none_yet h =
    let (empty, blank) = set_flag-peers name value f h in
    All-append _ sets ((name, value) ∷ []) (none_yet empty) (blank, tt)

parse_args-Told :
    (rest before : List Text) (sets : List (Text × Text)) (at : ℕ) (waiting : Option (ℕ × Text))
    (f : Flags)
    → at ≡ length before
    → State before sets waiting
    → (f.peers ≡ [] → NoPeers sets)
    → Told (before ++ rest) (parse_args at waiting rest f)
unfolding parse_args
parse_args-Told [] before sets at none f here s p =
    (sets, subst (λ (a : List Text). Reads a sets) (sym (append-nil before)) s, p)
parse_args-Told [] before sets at (some (place, name)) f here w p = record {
  before = w.earlier;
  rest = w.arg ∷ [];
  sets = sets;
  args_are = append-nil before ∙ w.before_is;
  reads = w.reads;
  blamed = (
    w.place_is,
    record {
      arg = w.arg;
      after = [];
      flag = name;
      name = name;
      value = none;
      rest_is = refl;
      dashed = w.dashed;
      named = w.named;
    },
    w.known,
    refl,
    refl,
  );
}
parse_args-Told (value ∷ rest) before sets at (some (place, name)) f here w p =
    let f' = set_flag name value f in
    subst (λ (a : List Text). Told a (parse_args (at + 1) none rest f'))
      (append_assoc before (value ∷ []) rest)
      (parse_args-Told rest (before ++ value ∷ []) (sets ++ (name, value) ∷ []) (at + 1) none f'
        (omega (arith, here, length-append before (value ∷ [])))
        (subst (λ (a : List Text). Reads a (sets ++ (name, value) ∷ []))
          (sym (
            ap (λ (b : List Text). b ++ value ∷ []) w.before_is
            ∙ append_assoc w.earlier (w.arg ∷ []) (value ∷ [])))
          (Reads.apart w.arg name value w.reads w.dashed w.named w.known))
        (set_flag-NoPeers name value f sets p))
parse_args-Told (arg ∷ rest) before sets at none f here s p = elim (Option-cases (flag_of arg)) [
  | inl plain ↦
      rw (plain, parse_args)
        (record {
          before = before;
          rest = arg ∷ rest;
          sets = sets;
          args_are = refl;
          reads = s;
          blamed = (here, arg, rest, refl, flag_of-Undashed arg plain);
        })
  | inr (flag, read) ↦
      rw (read, parse_args) (told flag (parse_args-Told rest) (flag_of-Dashed arg flag read))
]
  where
    next : at + 1 ≡ length (before ++ arg ∷ [])
    next = omega (arith, here, length-append before (arg ∷ []))

    shift : (before ++ arg ∷ []) ++ rest ≡ before ++ arg ∷ rest
    shift = append_assoc before (arg ∷ []) rest

    blames : (e : Error) → Blamed e before (arg ∷ rest) sets → Blames e (before ++ arg ∷ rest)
    blames e b = record {
      before = before;
      rest = arg ∷ rest;
      sets = sets;
      args_are = refl;
      reads = s;
      blamed = b;
    }

    first : (flag : Text) → Dashed arg flag → FlagFirst (arg ∷ rest)
    first flag dashed = record {
      arg = arg;
      after = rest;
      flag = flag;
      name = (name_of flag).0;
      value = (name_of flag).1;
      rest_is = refl;
      dashed = dashed;
      named = name_of-Named flag;
    }

    -- What is known of the arguments behind this one.
    Later : Type 0
    Later =
        (before : List Text) (sets : List (Text × Text)) (at : ℕ) (waiting : Option (ℕ × Text))
        (f : Flags)
        → at ≡ length before
        → State before sets waiting
        → (f.peers ≡ [] → NoPeers sets)
        → Told (before ++ rest) (parse_args at waiting rest f)

    valued :
        (flag : Text) (o : Option Text)
        → Later
        → Dashed arg flag
        → (name_of flag).1 ≡ o
        → FlagName ((name_of flag).0)
        → Told (before ++ arg ∷ rest) (elim o as (λ _. Result Flags) [
          | some value ↦ parse_args (at + 1) none rest (set_flag ((name_of flag).0) value f)
          | none ↦ parse_args (at + 1) (some (at, (name_of flag).0)) rest f
        ])
    valued flag none later dashed value known =
        let name = (name_of flag).0 in
        let (same, free) =
          subst (λ (x : Option Text). Named flag (name, x)) value (name_of-Named flag) in
        subst (λ (a : List Text). Told a (parse_args (at + 1) (some (at, name)) rest f)) shift
          (later (before ++ arg ∷ []) sets (at + 1) (some (at, name)) f next
            (record {
              earlier = before;
              arg = arg;
              before_is = refl;
              place_is = here;
              dashed = subst (Dashed arg) same dashed;
              named = (refl, free);
              known = known;
              reads = s;
            })
            p)
    valued flag (some v) later dashed value known =
        let name = (name_of flag).0 in
        let named = subst (λ (x : Option Text). Named flag (name, x)) value (name_of-Named flag) in
        let f' = set_flag name v f in
        subst (λ (a : List Text). Told a (parse_args (at + 1) none rest f')) shift
          (later (before ++ arg ∷ []) (sets ++ (name, v) ∷ []) (at + 1) none f' next
            (Reads.inline arg flag name v s dashed named known) (set_flag-NoPeers name v f sets p))

    told :
        (flag : Text)
        → Later
        → Dashed arg flag
        → Told (before ++ arg ∷ rest) (elim (is_help ((name_of flag).0)) as (λ _. Result Flags) [
          | true ↦ err help
          | false ↦ elim (is_known ((name_of flag).0)) as (λ _. Result Flags) [
            | false ↦ err (unknown_flag at)
            | true ↦ elim ((name_of flag).1) as (λ _. Result Flags) [
              | some value ↦ parse_args (at + 1) none rest (set_flag ((name_of flag).0) value f)
              | none ↦ parse_args (at + 1) (some (at, (name_of flag).0)) rest f
            ]
          ]
        ])
    told flag later dashed = elim (Bool-cases (is_help ((name_of flag).0))) [
      | inl helps ↦
          rw helps (blames help (first flag dashed, (is_help-HelpName ((name_of flag).0)).0 helps))
      | inr goes_on ↦ rw goes_on (elim (Bool-cases (is_known ((name_of flag).0))) [
        | inr unknown ↦ rw unknown (
            blames (unknown_flag at) (
              here,
              first flag dashed,
              (is_help-HelpName ((name_of flag).0)).1 goes_on,
              (is_known-FlagName ((name_of flag).0)).1 unknown,
            ))
        | inl known ↦ rw known (
            valued flag ((name_of flag).1) later dashed refl
              ((is_known-FlagName ((name_of flag).0)).0 known))
      ])
    ]

-- If `Flags::parse` gives an error, the arguments are some that make settings, each a flag of the
-- source with its value behind `=` or in the next argument, and a rest. The error is help, and the
-- rest begins with a flag for help; or an unknown flag, and the rest, at its place, begins with a
-- flag that is neither for help nor of the source; or a missing value, and the rest, at its place,
-- is one flag of the source without a value; or an unexpected argument, and the rest, at its
-- place, begins with an argument without dashes; or no peer, and there is no rest and no setting
-- is a peer, but for blanks.
pub parse-Blames : (args : List Text) (e : Error) → parse args ≡ err e → Blames e args
unfolding parse
parse-Blames args e h =
    go (parse_args 0 none args default_flags)
      (parse_args-Told args [] [] 0 none default_flags refl Reads.nothing (λ _. tt)) h
  where
    unchecked :
        (g : Flags) (ps : List Text)
        → g.peers ≡ ps
        → Told args (ok g)
        → (elim ps as (λ _. Result Flags) [ [] ↦ err no_peer | _ ∷ _ ↦ ok g ]) ≡ err e
        → Blames e args
    unchecked g [] empty (sets, reads, unpeered) h1 =
        let same : no_peer ≡ e = cc in
        subst (λ (x : Error). Blames x args) same
          (record {
            before = args;
            rest = [];
            sets = sets;
            args_are = sym (append-nil args);
            reads = reads;
            blamed = (refl, unpeered empty);
          })
    unchecked g (p ∷ ps) empty t h1 = absurd cc

    go :
        (r : Result Flags)
        → Told args r
        → (elim r as (λ _. Result Flags) [
          | err e ↦ err e
          | ok g ↦ elim (g.peers) [ [] ↦ err no_peer | _ ∷ _ ↦ ok g ]
        ])
          ≡ err e
        → Blames e args
    go (err e1) t h1 = let same : e1 ≡ e = cc in subst (λ (x : Error). Blames x args) same t
    go (ok g) t h1 = unchecked g g.peers refl t h1
