-- ===== src/Table/Search.antt =====
-- The search by halving finds what a walk from the left finds.
use Prim.Native.Nat.{Ordering}
use hopdns.Base.{
  ℕ, zero, suc, ◌+◌, ◌-◌, ◌/◌, ◌≤◌, ◌<◌, ◌≡◌, ◌⊎◌, inl, inr, refl, sym, ap, ◌∙◌, subst, ◌≢◌, List,
  [], ◌∷◌, some, arith, ltb, length, get_elem?, Bool-cases,
}
use hopdns.Text.{Text, compare_text}
use hopdns.Text.Order.{
  compare_text_refl, eq_of_compare_text, compare_text_gt_lt, compare_text_lt_gt, compare_text_trans,
}
use hopdns.Table.{
  Place, found, vacant, compare_row, next_base, search_loop, place_at, find_row, AllRows, Ascending,
}

lt_or_eq : (n m : ℕ) → n ≤ m → (n < m) ⊎ (n ≡ m)
lt_or_eq n m h = grind arith

abbrev pub one_on : Place → Place
one_on (found i) = found (suc i)
one_on (vacant i) = vacant (suc i)

module _ {ℓ} {V : Type ℓ} where
  -- The walk from the left.
  unfoldable pub scan : List (Text × V) → Text → Place
  scan [] key = vacant 0
  scan ((k, v) ∷ rows) key = elim (compare_text k key) [
    | Ordering.lt ↦ one_on (scan rows key)
    | Ordering.eq ↦ found 0
    | Ordering.gt ↦ vacant 0
  ]

  abbrev Before : List (Text × V) → Text → ℕ → Type ℓ
  Before rows key n =
      (j : ℕ) (r : Text × V)
      → get_elem? rows j ≡ some r
      → j < n
      → compare_text (r.0) key ≡ Ordering.lt

  abbrev After : List (Text × V) → Text → ℕ → Type ℓ
  After rows key n =
      (j : ℕ) (r : Text × V)
      → get_elem? rows j ≡ some r
      → n ≤ j
      → compare_text (r.0) key ≡ Ordering.gt

  get_elem?-lt :
      (rows : List (Text × V)) (i : ℕ)
      → i < length rows
      → (r : Text × V) × (get_elem? rows i ≡ some r)
  get_elem?-lt [] i h = elim h [ ]
  get_elem?-lt (x ∷ rows) zero h = (x, refl)
  get_elem?-lt (x ∷ rows) (suc i) h = get_elem?-lt rows i (omega arith)

  lt_of_get_elem? :
      (rows : List (Text × V)) (i : ℕ) (r : Text × V) → get_elem? rows i ≡ some r → i < length rows
  lt_of_get_elem? [] i r e = cc
  lt_of_get_elem? (x ∷ rows) zero r e = omega arith
  lt_of_get_elem? (x ∷ rows) (suc i) r e = omega (arith, lt_of_get_elem? rows i r e)

  AllRows-get :
      (P : Text × V → Type 0) (rows : List (Text × V)) (i : ℕ) (r : Text × V)
      → AllRows P rows
      → get_elem? rows i ≡ some r
      → P r
  AllRows-get P [] i r h e = cc
  AllRows-get P (x ∷ rows) zero r h e = subst P (cc) (h.0)
  AllRows-get P (x ∷ rows) (suc i) r h e = AllRows-get P rows i r (h.1) e

  Ascending-lt :
      (rows : List (Text × V)) (i j : ℕ) (r s : Text × V)
      → Ascending rows
      → get_elem? rows i ≡ some r
      → get_elem? rows j ≡ some s
      → i < j
      → compare_text (r.0) (s.0) ≡ Ordering.lt
  Ascending-lt [] i j r s h e f lt = cc
  Ascending-lt (x ∷ rows) i zero r s h e f lt = elim lt [ ]
  Ascending-lt (x ∷ rows) zero (suc j) r s h e f lt =
      subst (λ (y : Text × V). compare_text (y.0) (s.0) ≡ Ordering.lt) {x = x} {y = r} (cc)
        (AllRows-get (λ t. compare_text (x.0) (t.0) ≡ Ordering.lt) rows j s (h.0) f)
  Ascending-lt (x ∷ rows) (suc i) (suc j) r s h e f lt =
      Ascending-lt rows i j r s (h.1) e f (omega arith)

  -- The key does not stand in front of the row at `base`.
  abbrev Reached : List (Text × V) → Text → ℕ → Type ℓ
  Reached rows key base =
      (base ≡ 0)
      ⊎ ((r : Text × V) × (get_elem? rows base ≡ some r) × (compare_text (r.0) key ≢ Ordering.gt))

  After-of_gt :
      (rows : List (Text × V)) (key : Text) (n m : ℕ) (r : Text × V)
      → Ascending rows
      → get_elem? rows n ≡ some r
      → compare_text (r.0) key ≡ Ordering.gt
      → n ≤ m
      → After rows key m
  After-of_gt rows key n m r h e g le j s f k = elim (lt_or_eq n j (omega arith)) [
    | inl lt ↦ compare_text_lt_gt key (s.0) (
        compare_text_trans key (r.0) (s.0) (compare_text_gt_lt (r.0) key g)
          (Ascending-lt rows n j r s h e f lt))
    | inr same ↦
        subst (λ (y : Text × V). compare_text (y.0) key ≡ Ordering.gt) {x = r} {y = s} (cc) g
  ]

  -- The key, if it is there, stands in the `size` rows from `base` on.
  abbrev Bracket : List (Text × V) → Text → ℕ → ℕ → Type ℓ
  Bracket rows key base size =
      (base + size ≤ length rows) × Reached rows key base × After rows key (base + size)

  compare_row-eq :
      (rows : List (Text × V)) (key : Text) (i : ℕ) (r : Text × V) (o : Ordering)
      → get_elem? rows i ≡ some r
      → compare_text (r.0) key ≡ o
      → compare_row rows key i ≡ o
  unfolding compare_row
  compare_row-eq rows key i r o e c = rw (e, compare_row) c

  next_base-eq :
      (rows : List (Text × V)) (key : Text) (base mid : ℕ) (r : Text × V) (o : Ordering)
      → get_elem? rows mid ≡ some r
      → compare_text (r.0) key ≡ o
      → next_base rows key base mid ≡ elim o [ Ordering.gt ↦ base | _ ↦ mid ]
  unfolding next_base
  next_base-eq rows key base mid r o e c = rw (compare_row-eq rows key mid r o e c, next_base)

  next_base-Bracket :
      (rows : List (Text × V)) (key : Text) (base size : ℕ) (r : Text × V) (o : Ordering)
      → Ascending rows
      → 1 < size
      → Bracket rows key base size
      → get_elem? rows (base + size / 2) ≡ some r
      → compare_text (r.0) key ≡ o
      → Bracket rows key (next_base rows key base (base + size / 2)) (size - size / 2)
  next_base-Bracket rows key base size r Ordering.gt h more (fits, low, high) e c =
      rw (next_base-eq rows key base _ r _ e c)
        (omega arith, low, After-of_gt rows key (base + size / 2) _ r h e c (omega arith))
  next_base-Bracket rows key base size r Ordering.lt h more (fits, low, high) e c =
      rw (next_base-eq rows key base _ r _ e c)
        (omega arith, inr (r, e, λ g. cc), λ j s f k. high j s f (omega arith))
  next_base-Bracket rows key base size r Ordering.eq h more (fits, low, high) e c =
      rw (next_base-eq rows key base _ r _ e c)
        (omega arith, inr (r, e, λ g. cc), λ j s f k. high j s f (omega arith))

  -- The rounds end with one row left: the fuel is enough.
  search_loop-Bracket :
      (fuel : ℕ) (rows : List (Text × V)) (key : Text) (base size : ℕ)
      → Ascending rows
      → size ≤ suc fuel
      → 1 ≤ size
      → Bracket rows key base size
      → Bracket rows key (search_loop fuel rows key base size) 1
  unfolding search_loop
  search_loop-Bracket zero rows key base size h few pos (fits, low, high) =
      (omega arith, low, λ j r e k. high j r e (omega arith))
  search_loop-Bracket (suc fuel) rows key base size h few pos b = elim (Bool-cases (ltb 1 size)) [
    | inl more ↦
        let (r, e) = get_elem?-lt rows (base + size / 2) (ground arith) in
        rw more (
          search_loop-Bracket fuel rows key _ (size - size / 2) h (ground arith) (ground arith)
            (next_base-Bracket rows key base size r _ h (ground arith) b e refl))
    | inr done ↦ rw done (ground arith, b.1, λ j r e k. b.2 j r e (ground arith))
  ]

  -- What a search may answer.
  abbrev Finds : List (Text × V) → Text → Place → Type ℓ
  Finds rows key (found i) = (r : Text × V) × (get_elem? rows i ≡ some r) × (r.0 ≡ key)
  Finds rows key (vacant i) = (i ≤ length rows) × Before rows key i × After rows key i

  place_at-eq :
      (rows : List (Text × V)) (key : Text) (base : ℕ) (r : Text × V) (o : Ordering)
      → get_elem? rows base ≡ some r
      → compare_text (r.0) key ≡ o
      → place_at rows key base ≡ elim o [
        | Ordering.eq ↦ found base
        | Ordering.lt ↦ vacant (base + 1)
        | Ordering.gt ↦ vacant base
      ]
  unfolding place_at
  place_at-eq rows key base r o e c = rw (compare_row-eq rows key base r o e c, place_at)

  Before-of_lt :
      (rows : List (Text × V)) (key : Text) (n : ℕ) (r : Text × V)
      → Ascending rows
      → get_elem? rows n ≡ some r
      → compare_text (r.0) key ≡ Ordering.lt
      → Before rows key (n + 1)
  Before-of_lt rows key n r h e c j s f k = elim (lt_or_eq j n (omega arith)) [
    | inl lt ↦ compare_text_trans (s.0) (r.0) key (Ascending-lt rows j n s r h f e lt) c
    | inr same ↦
        subst (λ (y : Text × V). compare_text (y.0) key ≡ Ordering.lt) {x = r} {y = s} (cc) c
  ]

  Reached-zero :
      (rows : List (Text × V)) (key : Text) (base : ℕ) (r : Text × V)
      → get_elem? rows base ≡ some r
      → compare_text (r.0) key ≡ Ordering.gt
      → Reached rows key base
      → base ≡ 0
  Reached-zero rows key base r e c (inl z) = z
  Reached-zero rows key base r e c (inr (s, f, ne)) =
      absurd
        (ne (subst (λ (y : Text × V). compare_text (y.0) key ≡ Ordering.gt) {x = r} {y = s} (cc) c))

  place_at-Finds :
      (rows : List (Text × V)) (key : Text) (base : ℕ) (r : Text × V) (o : Ordering)
      → Ascending rows
      → get_elem? rows base ≡ some r
      → compare_text (r.0) key ≡ o
      → Bracket rows key base 1
      → Finds rows key (place_at rows key base)
  place_at-Finds rows key base r Ordering.eq h e c b =
      rw (place_at-eq rows key base r _ e c) (r, e, eq_of_compare_text _ _ c)
  place_at-Finds rows key base r Ordering.lt h e c b =
      rw (place_at-eq rows key base r _ e c)
        (omega (arith, b.0), Before-of_lt rows key base r h e c, b.2)
  place_at-Finds rows key base r Ordering.gt h e c (fits, low, high) =
      rw (place_at-eq rows key base r _ e c) (
        omega arith,
        λ j s f k. absurd (omega (arith, Reached-zero rows key base r e c low)),
        After-of_gt rows key base base r h e c (omega arith),
      )

  pub find_row-Finds :
      (rows : List (Text × V)) (key : Text) → Ascending rows → Finds rows key (find_row rows key)
  unfolding find_row
  find_row-Finds [] key h = (omega arith, (λ j r e k. cc), (λ j r e k. cc))
  find_row-Finds (x ∷ rows) key h =
      let all = x ∷ rows in
      let b =
        search_loop-Bracket (length all) all key 0 (length all) h (omega arith) (omega arith)
          (omega arith, inl refl, λ j r e k. absurd (omega (arith, lt_of_get_elem? all j r e))) in
      let (r, e) =
        get_elem?-lt all (search_loop (length all) all key 0 (length all)) (omega arith) in
      place_at-Finds all key _ r _ h e refl b

  pub scan_step :
      (k : Text) (v : V) (rows : List (Text × V)) (key : Text) (o : Ordering)
      → compare_text k key ≡ o
      → scan ((k, v) ∷ rows) key ≡ elim o [
        | Ordering.lt ↦ one_on (scan rows key)
        | Ordering.eq ↦ found 0
        | Ordering.gt ↦ vacant 0
      ]
  unfolding scan
  scan_step k v rows key o c = rw (c, scan)

  scan-Finds :
      (rows : List (Text × V)) (key : Text) (p : Place)
      → Ascending rows
      → Finds rows key p
      → scan rows key ≡ p
  scan-Finds [] key (found i) h (r, e, s) = cc
  scan-Finds [] key (vacant i) h (le, low, high) = unfold scan in ground arith
  scan-Finds ((k, v) ∷ rows) key (found zero) h (r, e, s) = scan_step k v rows key _ (
      subst (λ (y : Text). compare_text y key ≡ Ordering.eq) {x = key} {y = k} (cc)
        (compare_text_refl key))
  scan-Finds ((k, v) ∷ rows) key (found (suc i)) h (r, e, s) =
      scan_step k v rows key _ (
        subst (λ (y : Text). compare_text k y ≡ Ordering.lt) s
          (AllRows-get (λ t. compare_text k (t.0) ≡ Ordering.lt) rows i r (h.0) e))
      ∙ ap one_on (scan-Finds rows key (found i) (h.1) (r, e, s))
  scan-Finds ((k, v) ∷ rows) key (vacant zero) h (le, low, high) =
      scan_step k v rows key _ (high 0 (k, v) refl (omega arith))
  scan-Finds ((k, v) ∷ rows) key (vacant (suc i)) h (le, low, high) =
      scan_step k v rows key _ (low 0 (k, v) refl (omega arith))
      ∙ ap one_on (
          scan-Finds rows key (vacant i) (h.1) (
            omega arith,
            (λ j r e k. low (suc j) r e (omega arith)),
            λ j r e k. high (suc j) r e (omega arith),
          ))

  -- On rows in ascending order of their keys the search by halving gives the place that a walk
  -- from the left gives: that of the key, or that where it would be inserted.
  pub find_row-scan :
      (rows : List (Text × V)) (key : Text) → Ascending rows → find_row rows key ≡ scan rows key
  find_row-scan rows key h = sym (scan-Finds rows key _ h (find_row-Finds rows key h))
