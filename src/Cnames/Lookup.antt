-- ===== src/Cnames/Lookup.antt =====
-- src/cnames.rs: `lookup`, the exact name first, then the nearest parent that has a wildcard.
use hopdns.Base.{
  ℕ, ◌≤◌, ◌<◌, true, false, [], ◌∷◌, ◌++◌, none, some, ◌≡◌, refl, sym, ap, ◌∙◌, ◌⊎◌, inl, inr,
  arith, subst, leb, leb→le, le→leb, ◌==◌, length, length-append, Bool-cases, Option-cases,
}
use hopdns.Table
use hopdns.Table.{Table}
use hopdns.Text.{Text, is_empty, lowercase, without_dot}
use hopdns.Cnames.{Cnames, lower_into, climb, lookup}

-- `z` is a parent of the name, behind the labels `p`.
pub record IsParent (name p z : Text) : Type 0 where
  pub split : name ≡ p ++ b'.' ∷ z
  pub nonempty : is_empty z ≡ false

-- The value of the nearest parent that the table knows.
pub record Nearest (wildcard : Table Text) (name v : Text) : Type 0 where
  pub labels : Text
  pub zone : Text
  pub parent : IsParent name labels zone
  pub known : Table.get zone wildcard ≡ some v
  pub nearer :
      (p z : Text) → IsParent name p z → length p < length labels → Table.get z wildcard ≡ none

IsParent-cons : {c : ℕ} {name p z : Text} → IsParent name p z → IsParent (c ∷ name) (c ∷ p) z
IsParent-cons {c} i = record { split = ap (λ (t : Text). c ∷ t) i.split; nonempty = i.nonempty }

-- A parent of a longer name that is not behind its first byte.
IsParent-tail : {c x : ℕ} {name p z : Text} → IsParent (c ∷ name) (x ∷ p) z → IsParent name p z
IsParent-tail i = record { split = cc i.split; nonempty = i.nonempty }

-- Only a dot in front makes the rest a parent, and then the rest is it.
first_parent : (c : ℕ) (rest z : Text) → IsParent (c ∷ rest) [] z → (c ≡ b'.') × (rest ≡ z)
first_parent c rest z i = let e = i.split in (cc, cc)

cons-Nearest :
    (w : Table Text) (c : ℕ) (rest v : Text)
    → ((z : Text) → IsParent (c ∷ rest) [] z → Table.get z w ≡ none)
    → Nearest w rest v
    → Nearest w (c ∷ rest) v
cons-Nearest w c rest v first n = record {
  labels = c ∷ n.labels;
  zone = n.zone;
  parent = IsParent-cons n.parent;
  known = n.known;
  nearer = go;
}
  where
    go :
        (p z : Text)
        → IsParent (c ∷ rest) p z
        → length p < length (c ∷ n.labels)
        → Table.get z w ≡ none
    go [] z i lt = first z i
    go (x ∷ p) z i lt = n.nearer p z (IsParent-tail i) (omega arith)

climb-Nearest : (w : Table Text) (name v : Text) → climb w name ≡ some v → Nearest w name v
unfolding climb
climb-Nearest w [] v h = cc
climb-Nearest w (c ∷ rest) v h = elim (Bool-cases (c == b'.')) [
  | inr other ↦
      cons-Nearest w c rest v (λ z i. absurd (ground (arith, first_parent c rest z i)))
        (climb-Nearest w rest v (rw (other, climb) at h))
  | inl dot ↦
      let h1 = rw (dot, climb) at h in
      elim (Bool-cases (is_empty rest)) [
        | inl last ↦ absurd (cc)
        | inr more ↦
            let h2 = rw more at h1 in
            elim (Option-cases (Table.get rest w)) [
              | inr (v', known) ↦ record {
                labels = [];
                zone = rest;
                parent = record {
                  split = let e : c ≡ b'.' = ground arith in ap (λ (x : ℕ). x ∷ rest) e;
                  nonempty = more;
                };
                known = known ∙ (rw known at h2);
                nearer = λ p z i lt. absurd (omega arith);
              }
              | inl unknown ↦
                  cons-Nearest w c rest v
                    (λ z i.
                      subst (λ (t : Text). Table.get t w ≡ none) ((first_parent c rest z i).1)
                        unknown)
                    (climb-Nearest w rest v (rw unknown at h2))
            ]
      ]
]

is_empty-nil : (t : Text) → is_empty t ≡ true → t ≡ []
unfolding is_empty
is_empty-nil [] h = refl
is_empty-nil (c ∷ t) h = cc

climb-none_rest :
    (w : Table Text) (c : ℕ) (rest : Text)
    → climb w (c ∷ rest) ≡ none
    → (climb w rest ≡ none) × ((c ≡ b'.') → is_empty rest ≡ false → Table.get rest w ≡ none)
unfolding climb
climb-none_rest w c rest h = elim (Bool-cases (c == b'.')) [
  | inr other ↦ (rw (other, climb) at h, λ dot more. absurd (ground arith))
  | inl dot ↦
      let h1 = rw (dot, climb) at h in
      elim (Bool-cases (is_empty rest)) [
        | inl last ↦ (rw (is_empty-nil rest last, climb) refl, λ _ more. cc)
        | inr more ↦
            let h2 = rw more at h1 in
            elim (Option-cases (Table.get rest w)) [
              | inr (v, known) ↦ absurd (let h3 = rw known at h2 in cc)
              | inl unknown ↦ (rw unknown at h2, λ _ _. unknown)
            ]
      ]
]

-- No value: no parent has a wildcard.
pub climb-none :
    (w : Table Text) (name : Text)
    → climb w name ≡ none
    → (p z : Text) → IsParent name p z
    → Table.get z w ≡ none
climb-none w [] h p z i =
    absurd (let e = ap length i.split ∙ length-append p (b'.' ∷ z) in omega arith)
climb-none w (c ∷ rest) h [] z i =
    let (dot, same) = first_parent c rest z i in
    let more : is_empty rest ≡ false =
      subst (λ (t : Text). is_empty t ≡ false) (sym same) i.nonempty in
    subst (λ (t : Text). Table.get t w ≡ none) same ((climb-none_rest w c rest h).1 dot more)
climb-none w (c ∷ rest) h (x ∷ p) z i =
    climb-none w rest ((climb-none_rest w c rest h).0) p z (IsParent-tail i)

-- The key that a name is looked up by.
abbrev pub folded : Text → Text
folded name = lowercase (without_dot name)

-- A name that is short enough to be looked up.
abbrev pub Fits : Text → Type 0
Fits name = length (without_dot name) ≤ 256

-- If `lookup` gives a value for a name, the name without its last dot has at most 256 bytes, and
-- the value is that of the name in small letters in the exact table or, where that has none, the
-- value of a parent of it in the wildcard table such that no nearer parent is in that table.
pub lookup-some :
    (c : Cnames) (name v : Text)
    → lookup c name ≡ some v
    → Fits name
      × ((Table.get (folded name) c.exact ≡ some v)
          ⊎ ((Table.get (folded name) c.exact ≡ none) × Nearest c.wildcard (folded name) v))
unfolding lookup lower_into
lookup-some c name v h = elim (Bool-cases (leb (length (without_dot name)) 256)) [
  | inr long ↦ absurd (let h1 = rw (long, lookup, lower_into) at h in cc)
  | inl short ↦
      let h1 = rw (short, lookup, lower_into) at h in
      (
        leb→le (length (without_dot name)) 256 short,
        elim (Option-cases (Table.get (folded name) c.exact)) [
          | inr (v', known) ↦ inl (known ∙ (rw known at h1))
          | inl unknown ↦ inr (unknown, climb-Nearest c.wildcard (folded name) v (rw unknown at h1))
        ],
      )
]

-- If `lookup` gives nothing for a name that, without its last dot, has at most 256 bytes, then the
-- exact table does not have it in small letters, and the wildcard table has no parent of it.
pub lookup-none :
    (c : Cnames) (name : Text)
    → Fits name
    → lookup c name ≡ none
    → (Table.get (folded name) c.exact ≡ none)
      × ((p z : Text) → IsParent (folded name) p z → Table.get z c.wildcard ≡ none)
unfolding lookup lower_into
lookup-none c name fits h =
    let h1 = rw (le→leb (length (without_dot name)) 256 fits, lookup, lower_into) at h in
    elim (Option-cases (Table.get (folded name) c.exact)) [
      | inr (v', known) ↦ absurd (let h2 = rw known at h1 in cc)
      | inl unknown ↦ (unknown, climb-none c.wildcard (folded name) (rw unknown at h1))
    ]
