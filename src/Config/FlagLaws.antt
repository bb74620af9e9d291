-- ===== src/Config/FlagLaws.antt =====
-- `Flags::parse`: what the flags hold when they are read.
use hopdns.Base.{
  ℕ, ◌+◌, false, List, [], ◌∷◌, ◌++◌, Option, none, some, ◌≡◌, ◌≢◌, refl, inl, inr, subst,
  Bool-cases, Option-cases,
}
use hopdns.Errors.{Result, ok, err, no_peer}
use hopdns.Text.{Text, codes, text_eq, is_empty}
use hopdns.Text.Space.{trim}
use hopdns.Config.{
  Flags, default_flags, flag_of, name_of, is_help, is_known, set_flag, parse_args, parse,
}

-- No peer is empty.
abbrev pub AllFull : List Text → Type 0
AllFull [] = Unit
AllFull (p ∷ ps) = (is_empty p ≡ false) × AllFull ps

AllFull-concat :
    (ps : List Text) (p : Text) → AllFull ps → is_empty p ≡ false → AllFull (ps ++ p ∷ [])
AllFull-concat [] p a h = (h, tt)
AllFull-concat (q ∷ ps) p a h = (a.0, AllFull-concat ps p (a.1) h)

set_flag-AllFull :
    (name value : Text) (f : Flags) → AllFull f.peers → AllFull (set_flag name value f).peers
unfolding set_flag
set_flag-AllFull name value f a = elim (Bool-cases (text_eq name (codes "listen"))) [
  | inl e ↦ rw (e, set_flag) a
  | inr e ↦
      rw (e, set_flag)
        (elim (Bool-cases (text_eq name (codes "domain"))) [
          | inl e ↦ rw e a
          | inr e ↦ rw e (elim (Bool-cases (text_eq name (codes "api-key"))) [
            | inl e ↦ rw e a
            | inr e ↦ rw e (elim (Bool-cases (text_eq name (codes "config"))) [
              | inl e ↦ rw e a
              | inr e ↦ rw e (elim (Bool-cases (is_empty (trim value))) [
                | inl blank ↦ rw blank a
                | inr full ↦ rw full (AllFull-concat f.peers (trim value) a full)
              ])
            ])
          ])
        ])
]

parse_args-AllFull :
    (args : List Text) (at : ℕ) (waiting : Option (ℕ × Text)) (f g : Flags)
    → AllFull f.peers
    → parse_args at waiting args f ≡ ok g
    → AllFull g.peers
unfolding parse_args
parse_args-AllFull [] at none f g a h =
    let e : f ≡ g = cc in subst (λ (x : Flags). AllFull x.peers) e a
parse_args-AllFull [] at (some (place, name)) f g a h = cc
parse_args-AllFull (value ∷ args) at (some (place, name)) f g a h =
    parse_args-AllFull args (at + 1) none (set_flag name value f) g
      (set_flag-AllFull name value f a) h
parse_args-AllFull (arg ∷ args) at none f g a h = elim (Option-cases (flag_of arg)) [
  | inl plain ↦ absurd (let h1 = rw (plain, parse_args) at h in cc)
  | inr (flag, dashed) ↦
      let h1 = rw (dashed, parse_args) at h in
      elim (Bool-cases (is_help ((name_of flag).0))) [
        | inl helps ↦ absurd (let h2 = rw helps at h1 in cc)
        | inr goes_on ↦
            let h2 = rw goes_on at h1 in
            elim (Bool-cases (is_known ((name_of flag).0))) [
              | inr unknown ↦ absurd (let h3 = rw unknown at h2 in cc)
              | inl known ↦
                  let h3 = rw known at h2 in
                  elim (Option-cases ((name_of flag).1)) [
                    | inl later ↦
                        parse_args-AllFull args (at + 1) (some (at, (name_of flag).0)) f g a
                          (rw later at h3)
                    | inr (value, inline) ↦
                        parse_args-AllFull args (at + 1) none (set_flag ((name_of flag).0) value f)
                          g (set_flag-AllFull ((name_of flag).0) value f a) (rw inline at h3)
                  ]
            ]
      ]
]

checked-AllFull :
    (g f : Flags) (ps : List Text)
    → g.peers ≡ ps
    → AllFull g.peers
    → (elim ps as (λ _. Result Flags) [ [] ↦ err no_peer | _ ∷ _ ↦ ok g ]) ≡ ok f
    → (f.peers ≢ []) × AllFull f.peers
checked-AllFull g f [] e a h = cc
checked-AllFull g f (q ∷ qs) e a h =
    let same : g ≡ f = cc in
    let some_peer : g.peers ≢ [] = λ empty. cc in
    subst (λ (x : Flags). (x.peers ≢ []) × AllFull x.peers) same (some_peer, a)

-- If `Flags::parse` gives flags, they have a peer, and none of their peers is empty.
pub parse-AllFull :
    (args : List Text) (f : Flags) → parse args ≡ ok f → (f.peers ≢ []) × AllFull f.peers
unfolding parse
parse-AllFull args f h = go (parse_args 0 none args default_flags) refl h
  where
    go :
        (r : Result Flags)
        → parse_args 0 none args default_flags ≡ r
        → (elim r as (λ _. Result Flags) [
          | err e ↦ err e
          | ok g ↦ elim (g.peers) [ [] ↦ err no_peer | _ ∷ _ ↦ ok g ]
        ])
          ≡ ok f
        → (f.peers ≢ []) × AllFull f.peers
    go (err e) read h = cc
    go (ok g) read h =
        checked-AllFull g f g.peers refl (parse_args-AllFull args 0 none default_flags g tt read) h
