-- ===== src/Text/Split.antt =====
-- `split_once`: the parts, and that there is no separator in the first.
use hopdns.Base.{
  ℕ, Bool, true, false, [], ◌∷◌, ◌++◌, Option, none, some, ◌≡◌, refl, ap, subst, All, ◌==◌, ==_iff,
  if◌then◌else◌,
}
use hopdns.Text.{Text, split_once}

-- No separator.
abbrev pub Free : ℕ → Text → Type 0
Free sep t = All (λ c. (c == sep) ≡ false) t

pub split_once-none : (sep : ℕ) (t : Text) → split_once sep t ≡ none → Free sep t
unfolding split_once
split_once-none sep [] h = tt
split_once-none sep (c ∷ t) h = go (c == sep) (split_once sep t) refl refl (split_once-none sep t) h
  where
    go :
        (b : Bool) (rest : Option (Text × Text))
        → (c == sep) ≡ b
        → split_once sep t ≡ rest
        → (split_once sep t ≡ none → Free sep t)
        → (if◌then◌else◌ {A = Option (Text × Text)} b
            (some ([], t))
            (elim rest as (λ _. Option (Text × Text)) [
              | some (a, b) ↦ some (c ∷ a, b)
              | none ↦ none
            ]))
          ≡ none
        → ((c == sep) ≡ false) × Free sep t
    go true rest is_sep cut later e = absurd cc
    go false (some (a, b)) is_sep cut later e = absurd cc
    go false none is_sep cut later e = (is_sep, later cut)

pub split_once-some :
    (sep : ℕ) (t a b : Text) → split_once sep t ≡ some (a, b) → (t ≡ a ++ sep ∷ b) × Free sep a
unfolding split_once
split_once-some sep [] a b h = absurd cc
split_once-some sep (c ∷ t) a b h =
    go (c == sep) (split_once sep t) refl refl (split_once-some sep t) h
  where
    moved :
        (x x' y y' : Text)
        → x ≡ x'
        → y ≡ y'
        → (c ∷ t ≡ x ++ sep ∷ y) × Free sep x
        → (c ∷ t ≡ x' ++ sep ∷ y') × Free sep x'
    moved x x' y y' p q h =
        subst (λ (v : Text). (c ∷ t ≡ v ++ sep ∷ y') × Free sep v) p
          (subst (λ (v : Text). (c ∷ t ≡ x ++ sep ∷ v) × Free sep x) q h)

    go :
        (d : Bool) (rest : Option (Text × Text))
        → (c == sep) ≡ d
        → split_once sep t ≡ rest
        → ((x y : Text) → split_once sep t ≡ some (x, y) → (t ≡ x ++ sep ∷ y) × Free sep x)
        → (if◌then◌else◌ {A = Option (Text × Text)} d
            (some ([], t))
            (elim rest as (λ _. Option (Text × Text)) [
              | some (x, y) ↦ some (c ∷ x, y)
              | none ↦ none
            ]))
          ≡ some (a, b)
        → (c ∷ t ≡ a ++ sep ∷ b) × Free sep a
    go true rest is_sep cut later e =
        let same : c ≡ sep = (==_iff c sep).0 is_sep in
        let front : [] ≡ a = cc in
        let back : t ≡ b = cc in moved [] a t b front back (ap (λ (x : ℕ). x ∷ t) same, tt)
    go false none is_sep cut later e = absurd cc
    go false (some (x, y)) is_sep cut later e =
        let (parts, free) = later x y cut in
        let front : c ∷ x ≡ a = cc in
        let back : y ≡ b = cc in moved (c ∷ x) a y b front back (ap (◌∷◌ c) parts, (is_sep, free))
