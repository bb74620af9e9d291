-- ===== src/Server/Zone/Suffix.antt =====
-- `in_zone` says that the name is the zone, or ends in a dot and the zone.
use hopdns.Base.{
  ℕ, zero, suc, ◌+◌, ◌-◌, ◌≤◌, Bool, true, false, ◌&&◌, ◌||◌, List, [], ◌∷◌, ◌++◌, some, ◌≡◌, refl,
  sym, ap, ◌∙◌, ◌⊎◌, inl, inr, ◌↔◌, arith, subst, le→leb, ltb, ltb→lt, lt→ltb, ◌==◌, length, take,
  drop, get_elem?, length-append, append_assoc, take-append-drop, drop-append, Bool-cases,
  Option-cases,
}
use hopdns.Text.{Text, text_eq, ends_with}
use hopdns.Text.Order.{text_eq_iff, text_eq_refl}
use hopdns.Wire.Words.{get_elem?-append_add}
use hopdns.Server.Zone.{in_zone}

drop-get_elem? :
    {A : Type 0} (xs : List A) (n : ℕ) (x : A)
    → get_elem? xs n ≡ some x
    → drop n xs ≡ x ∷ drop (n + 1) xs
drop-get_elem? {A} [] n x h = cc
drop-get_elem? {A} (y ∷ ys) zero x h = let e : y ≡ x = cc in ap (λ (z : A). z ∷ ys) e
drop-get_elem? {A} (y ∷ ys) (suc n) x h =
    let e : suc n + 1 ≡ suc (n + 1) = omega arith in rw e (drop-get_elem? ys n x h)

ends_with-drop :
    (t z : Text) → ends_with t z ≡ true → (length z ≤ length t) × (drop (length t - length z) t ≡ z)
unfolding ends_with
ends_with-drop t z h =
    (ground arith, (text_eq_iff (drop (length t - length z) t) z).0 (ground arith))

pub ends_with-append : (p z : Text) → ends_with (p ++ z) z ≡ true
unfolding ends_with
ends_with-append p z =
    let width : length (p ++ z) - length z ≡ length p = omega (arith, length-append p z) in
    rw (le→leb (length z) (length (p ++ z)) (omega (arith, length-append p z)), ends_with)
      (rw (width, drop-append) (text_eq_refl z))

-- The zone behind a dot.
in_zone-behind :
    (name zone : Text)
    → ltb (length zone) (length name) ≡ true
    → ends_with name zone ≡ true
    → (b : ℕ) → get_elem? name (length name - length zone - 1) ≡ some b
    → (b == b'.') ≡ true
    → name ≡ take (length name - length zone - 1) name ++ b'.' ∷ zone
in_zone-behind name zone longer ending b read dot =
    let n = length name - length zone - 1 in
    let (short, last) = ends_with-drop name zone ending in
    let lt = ltb→lt (length zone) (length name) longer in
    let next : n + 1 ≡ length name - length zone = omega arith in
    let is_dot : b ≡ b'.' = ground arith in
    let parts : drop n name ≡ b'.' ∷ zone =
      drop-get_elem? name n b read
      ∙ (ap (λ (x : ℕ). x ∷ drop (n + 1) name) is_dot
          ∙ ap (λ (k : ℕ). b'.' ∷ drop k name) next
          ∙ ap (λ (z : Text). b'.' ∷ z) last) in
    sym (take-append-drop n name) ∙ ap (λ (z : Text). take n name ++ z) parts

all_three : (a b c : Bool) → (a && b && c) ≡ true → (a ≡ true) × (b ≡ true) × (c ≡ true)
all_three true true true h = (refl, refl, refl)
all_three true true false h = cc
all_three true false c h = cc
all_three false b c h = cc

-- `in_zone` holds exactly if the name is the zone, or is some bytes, a dot and the zone.
pub in_zone_iff :
    (name zone : Text)
    → (in_zone name zone ≡ true) ↔ ((name ≡ zone) ⊎ ((p : Text) × (name ≡ p ++ b'.' ∷ zone)))
unfolding in_zone
in_zone_iff name zone = (to, from)
  where
    to : in_zone name zone ≡ true → (name ≡ zone) ⊎ ((p : Text) × (name ≡ p ++ b'.' ∷ zone))
    to h = elim (Bool-cases (text_eq name zone)) [
      | inl same ↦ inl ((text_eq_iff name zone).0 same)
      | inr other ↦ elim (Option-cases (get_elem? name (length name - length zone - 1))) [
        | inl out ↦ absurd (ground (arith, other, out))
        | inr (b, read) ↦
            let h' = rw (other, read) at h in
            let (longer, ending, dot) = all_three _ _ _ h' in
            inr (
              take (length name - length zone - 1) name,
              in_zone-behind name zone longer ending b read dot,
            )
      ]
    ]

    from : (name ≡ zone) ⊎ ((p : Text) × (name ≡ p ++ b'.' ∷ zone)) → in_zone name zone ≡ true
    from (inl same) = rw (same, text_eq_refl zone) refl
    from (inr (p, e)) =
        let longer : ltb (length zone) (length (p ++ b'.' ∷ zone)) ≡ true =
          lt→ltb (length zone) (length (p ++ b'.' ∷ zone))
            (omega (arith, length-append p (b'.' ∷ zone))) in
        let split : (p ++ b'.' ∷ []) ++ zone ≡ p ++ b'.' ∷ zone = append_assoc p (b'.' ∷ []) zone in
        let ending : ends_with (p ++ b'.' ∷ zone) zone ≡ true =
          subst (λ (t : Text). ends_with t zone ≡ true) split
            (ends_with-append (p ++ b'.' ∷ []) zone) in
        let place : length (p ++ b'.' ∷ zone) - length zone - 1 ≡ length p + 0 =
          omega (arith, length-append p (b'.' ∷ zone)) in
        rw (e, in_zone)
          (rw (longer, ending, place)
            (rw (get_elem?-append_add p (b'.' ∷ zone) 0)
              (elim (text_eq (p ++ b'.' ∷ zone) zone) as (λ b. (b || true) ≡ true) [
                | true ↦ refl
                | false ↦ refl
              ])))
