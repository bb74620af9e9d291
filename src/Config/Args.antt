-- ===== src/Config/Args.antt =====
-- `Flags::parse`: what an argument is, said without the functions that read it.
use hopdns.Base.{
  ℕ, Bool, true, false, ◌||◌, [], ◌∷◌, ◌++◌, Option, none, some, ◌≡◌, refl, ap, ◌∙◌, ◌⊎◌, inl, inr,
  subst, ◌==◌, ==_iff, Bool-cases,
}
use hopdns.Config.{flag_of, name_of, is_help, is_known}
use hopdns.Text.{Text, codes, text_eq, strip_prefix, split_once}
use hopdns.Text.Order.{text_eq_iff}
use hopdns.Text.Split.{Free, split_once-none, split_once-some}

-- The text does not begin with a dash.
abbrev pub Undashed : Text → Type 0
Undashed [] = Unit
Undashed (c ∷ t) = (c == b'-') ≡ false

-- The flag behind one dash or two.
abbrev pub Dashed : Text → Text → Type 0
Dashed arg flag = (arg ≡ b'-' ∷ b'-' ∷ flag) ⊎ ((arg ≡ b'-' ∷ flag) × Undashed flag)

strip_prefix_other :
    (c : ℕ) (t p : Text) → (c == b'-') ≡ false → strip_prefix (c ∷ t) (b'-' ∷ p) ≡ none
unfolding strip_prefix
strip_prefix_other c t p h = rw (h, strip_prefix) refl

flag_of_other : (c : ℕ) (t : Text) → (c == b'-') ≡ false → flag_of (c ∷ t) ≡ none
unfolding flag_of
flag_of_other c t h =
    rw (strip_prefix_other c t (b'-' ∷ []) h, flag_of) (strip_prefix_other c t [] h)

flag_of-cases :
    (arg : Text)
    → ((flag_of arg ≡ none) × Undashed arg)
      ⊎ ((flag : Text) × (flag_of arg ≡ some flag) × Dashed arg flag)
unfolding flag_of strip_prefix
flag_of-cases [] = inl (refl, tt)
flag_of-cases (c ∷ []) = elim (Bool-cases (c == b'-')) [
  | inr plain ↦ inl (flag_of_other c [] plain, plain)
  | inl dash ↦
      let same : c ≡ b'-' = (==_iff c b'-').0 dash in
      inr ([], ap (λ (x : ℕ). flag_of (x ∷ [])) same, inr (ap (λ (x : ℕ). x ∷ []) same, tt))
]
flag_of-cases (c ∷ d ∷ t) = elim (Bool-cases (c == b'-')) [
  | inr plain ↦ inl (flag_of_other c (d ∷ t) plain, plain)
  | inl dash ↦
      let same : c ≡ b'-' = (==_iff c b'-').0 dash in
      elim (Bool-cases (d == b'-')) [
        | inr one ↦ inr (
          d ∷ t,
          ap (λ (x : ℕ). flag_of (x ∷ d ∷ t)) same ∙ rw (one, flag_of) refl,
          inr (ap (λ (x : ℕ). x ∷ d ∷ t) same, one),
        )
        | inl two ↦
            let second : d ≡ b'-' = (==_iff d b'-').0 two in
            inr (
              t,
              ap (λ (x : ℕ). flag_of (x ∷ d ∷ t)) same ∙ rw (two, flag_of) refl,
              inl (ap (λ (x : ℕ). x ∷ d ∷ t) same ∙ ap (λ (x : ℕ). b'-' ∷ x ∷ t) second),
            )
      ]
]

pub flag_of-Undashed : (arg : Text) → flag_of arg ≡ none → Undashed arg
flag_of-Undashed arg h = elim (flag_of-cases arg) [
  | inl (_, plain) ↦ plain
  | inr (flag, read, _) ↦ absurd cc
]

pub flag_of-Dashed : (arg flag : Text) → flag_of arg ≡ some flag → Dashed arg flag
flag_of-Dashed arg flag h = elim (flag_of-cases arg) [
  | inl (read, _) ↦ absurd cc
  | inr (flag', read, dashed) ↦ let same : flag' ≡ flag = cc in subst (Dashed arg) same dashed
]

-- The name of a flag, and the value behind the first `=`.
abbrev pub Named : Text → Text × Option Text → Type 0
Named flag (name, none) = (flag ≡ name) × Free b'=' name
Named flag (name, some value) = (flag ≡ name ++ b'=' ∷ value) × Free b'=' name

pub name_of-Named : (flag : Text) → Named flag (name_of flag)
unfolding name_of
name_of-Named flag = go (split_once b'=' flag) refl
  where
    go :
        (o : Option (Text × Text))
        → split_once b'=' flag ≡ o
        → Named flag (elim o as (λ _. Text × Option Text) [
          | some (n, v) ↦ (n, some v)
          | none ↦ (flag, none)
        ])
    go none h = (refl, split_once-none b'=' flag h)
    go (some (n, v)) h = split_once-some b'=' flag n v h

abbrev pub HelpName : Text → Type 0
HelpName name = (name ≡ codes "h") ⊎ (name ≡ codes "help")

abbrev pub FlagName : Text → Type 0
FlagName name =
    ((((name ≡ codes "listen") ⊎ (name ≡ codes "peer")) ⊎ (name ≡ codes "domain"))
      ⊎ (name ≡ codes "api-key"))
    ⊎ (name ≡ codes "config")

-- A test that decides `P`.
abbrev Decides : Bool → Type 0 → Type 0
Decides b P = (b ≡ true → P) × (b ≡ false → P → ⊥)

eq-Decides : (a b : Text) → Decides (text_eq a b) (a ≡ b)
eq-Decides a b = ((text_eq_iff a b).0, λ h same. let e = (text_eq_iff a b).1 same in cc)

or_eq-Decides :
    (first : Bool) (P : Type 0) (a b : Text)
    → Decides first P
    → Decides (first || text_eq a b) (P ⊎ (a ≡ b))
or_eq-Decides true P a b (holds, fails) = ((λ _. inl (holds refl)), λ h. absurd cc)
or_eq-Decides false P a b (holds, fails) = (
  (λ h. inr ((eq-Decides a b).0 h)),
  λ h p. elim p [ inl x ↦ fails refl x | inr same ↦ (eq-Decides a b).1 h same ],
)

pub is_help-HelpName :
    (name : Text)
    → (is_help name ≡ true → HelpName name) × (is_help name ≡ false → HelpName name → ⊥)
unfolding is_help
is_help-HelpName name = or_eq-Decides _ _ name (codes "help") (eq-Decides name (codes "h"))

pub is_known-FlagName :
    (name : Text)
    → (is_known name ≡ true → FlagName name) × (is_known name ≡ false → FlagName name → ⊥)
unfolding is_known
is_known-FlagName name = or_eq-Decides _ _ name (codes "config") (
    or_eq-Decides _ _ name (codes "api-key") (
      or_eq-Decides _ _ name (codes "domain")
        (or_eq-Decides _ _ name (codes "peer") (eq-Decides name (codes "listen")))))
