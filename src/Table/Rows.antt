-- ===== src/Table/Rows.antt =====
-- Sorted rows as a map: a row put at its place and a row taken away, by walks from the left.
use Prim.Native.Nat.{Ordering}
use hopdns.Base.{
  Bool-cases, inl, inr, ◌≡◌, refl, subst, List, [], ◌∷◌, Option, none, some, false, arith,
  if◌then◌else◌,
}
use hopdns.Text.{Text, compare_text, text_eq}
use hopdns.Text.Order.{
  text_eq_iff, compare_text_refl, eq_of_compare_text, compare_text_gt_lt, compare_text_trans,
}
use hopdns.Table.{AllRows, Ascending}

pub text_eq_of_lt : (a b : Text) → compare_text a b ≡ Ordering.lt → text_eq a b ≡ false
text_eq_of_lt a b h = ground (arith, text_eq_iff a b, compare_text_refl b, compare_text_refl a)

module _ {ℓ} {V : Type ℓ} where
  -- The value that stands beside a key.
  abbrev pub lookup : Text → List (Text × V) → Option V
  lookup key [] = none
  lookup key ((k, v) ∷ rows) = if text_eq k key then some v else lookup key rows

  -- A row put at its place, and a row taken away.
  unfoldable pub put : Text → V → List (Text × V) → List (Text × V)
  put key value [] = (key, value) ∷ []
  put key value ((k, v) ∷ rows) = elim (compare_text k key) [
    | Ordering.lt ↦ (k, v) ∷ put key value rows
    | Ordering.eq ↦ (k, value) ∷ rows
    | Ordering.gt ↦ (key, value) ∷ (k, v) ∷ rows
  ]

  unfoldable pub delete : Text → List (Text × V) → List (Text × V)
  delete key [] = []
  delete key ((k, v) ∷ rows) = elim (compare_text k key) [
    | Ordering.lt ↦ (k, v) ∷ delete key rows
    | Ordering.eq ↦ rows
    | Ordering.gt ↦ (k, v) ∷ rows
  ]

  pub AllRows-map :
      {P Q : Text × V → Type 0} (rows : List (Text × V))
      → ((r : Text × V) → P r → Q r)
      → AllRows P rows
      → AllRows Q rows
  AllRows-map [] f h = tt
  AllRows-map (r ∷ rows) f h = (f r (h.0), AllRows-map rows f (h.1))

  abbrev pub Above : Text → List (Text × V) → Type 0
  Above key rows = AllRows (λ s. compare_text key (s.0) ≡ Ordering.lt) rows

  pub Above-of_gt :
      (k : Text) (v : V) (key : Text) (rows : List (Text × V))
      → compare_text k key ≡ Ordering.gt
      → Above k rows
      → Above key ((k, v) ∷ rows)
  Above-of_gt k v key rows g h =
      let lt = compare_text_gt_lt k key g in
      (lt, AllRows-map rows (λ r p. compare_text_trans key k (r.0) lt p) h)

  pub lookup-Above : (key : Text) (rows : List (Text × V)) → Above key rows → lookup key rows ≡ none
  lookup-Above key [] h = refl
  lookup-Above key ((k, v) ∷ rows) h =
      ground (arith, text_eq_iff k key, compare_text_refl key, lookup-Above key rows (h.1))

  Above-put :
      (b key : Text) (value : V) (rows : List (Text × V))
      → Above b rows
      → compare_text b key ≡ Ordering.lt
      → Above b (put key value rows)
  unfolding put
  Above-put b key value [] h lt = (lt, tt)
  Above-put b key value ((k, v) ∷ rows) h lt = ground (arith, Above-put b key value rows (h.1) lt)

  pub Ascending-put :
      (key : Text) (value : V) (rows : List (Text × V))
      → Ascending rows
      → Ascending (put key value rows)
  unfolding put
  Ascending-put key value [] h = (tt, tt)
  Ascending-put key value ((k, v) ∷ rows) h =
      go (compare_text k key) refl (Ascending-put key value rows (h.1))
    where
      go :
          (o : Ordering)
          → compare_text k key ≡ o
          → Ascending (put key value rows)
          → Ascending (put key value ((k, v) ∷ rows))
      go Ordering.lt c ih = rw (c, put) (Above-put k key value rows (h.0) c, ih)
      go Ordering.eq c ih = rw (c, put) h
      go Ordering.gt c ih = rw (c, put) (Above-of_gt k v key rows c (h.0), h)

  pub lookup-put :
      (key j : Text) (value : V) (rows : List (Text × V))
      → lookup j (put key value rows) ≡ (if text_eq key j then some value else lookup j rows)
  unfolding put
  lookup-put key j value [] = refl
  lookup-put key j value ((k, v) ∷ rows) =
      go (compare_text k key) refl (lookup-put key j value rows)
    where
      go :
          (o : Ordering)
          → compare_text k key ≡ o
          → lookup j (put key value rows) ≡ (if text_eq key j then some value else lookup j rows)
          → lookup j (put key value ((k, v) ∷ rows))
            ≡ (if text_eq key j then some value else lookup j ((k, v) ∷ rows))
      go Ordering.lt c ih =
          rw (c, put, ih)
            (ground
              (arith, text_eq_of_lt k key c, text_eq_iff k j, text_eq_iff key j, text_eq_iff k key))
      go Ordering.eq c ih = rw (c, put, eq_of_compare_text k key c) (ground arith)
      go Ordering.gt c ih = rw (c, put) refl

  Above-delete : (b key : Text) (rows : List (Text × V)) → Above b rows → Above b (delete key rows)
  unfolding delete
  Above-delete b key [] h = tt
  Above-delete b key ((k, v) ∷ rows) h = ground (arith, Above-delete b key rows (h.1))

  pub Ascending-delete :
      (key : Text) (rows : List (Text × V)) → Ascending rows → Ascending (delete key rows)
  unfolding delete
  Ascending-delete key [] h = tt
  Ascending-delete key ((k, v) ∷ rows) h =
      ground (arith, Above-delete k key rows (h.0), Ascending-delete key rows (h.1))

  pub lookup-delete :
      (key j : Text) (rows : List (Text × V))
      → Ascending rows
      → lookup j (delete key rows) ≡ (if text_eq key j then none else lookup j rows)
  unfolding delete
  lookup-delete key j [] h = ground arith
  lookup-delete key j ((k, v) ∷ rows) h =
      go (compare_text k key) refl (lookup-delete key j rows (h.1))
    where
      go :
          (o : Ordering)
          → compare_text k key ≡ o
          → lookup j (delete key rows) ≡ (if text_eq key j then none else lookup j rows)
          → lookup j (delete key ((k, v) ∷ rows))
            ≡ (if text_eq key j then none else lookup j ((k, v) ∷ rows))
      go Ordering.lt c ih =
          rw (c, delete, ih)
            (ground
              (arith, text_eq_of_lt k key c, text_eq_iff k j, text_eq_iff key j, text_eq_iff k key))
      go Ordering.eq c ih =
          rw (c, delete, ← eq_of_compare_text k key c)
            (ground (arith, text_eq_iff k j, lookup-Above k rows (h.0)))
      go Ordering.gt c ih =
          rw (c, delete)
            (ground (
              arith,
              text_eq_iff key j,
              lookup-Above key ((k, v) ∷ rows) (Above-of_gt k v key rows c (h.0)),
            ))

  pub put_same :
      (key : Text) (v : V) (rows : List (Text × V))
      → Ascending rows
      → lookup key rows ≡ some v
      → put key v rows ≡ rows
  unfolding put
  put_same key v [] h e = cc
  put_same key v ((k, w) ∷ rows) h e = go (compare_text k key) refl (put_same key v rows (h.1))
    where
      go :
          (o : Ordering)
          → compare_text k key ≡ o
          → (lookup key rows ≡ some v → put key v rows ≡ rows)
          → put key v ((k, w) ∷ rows) ≡ (k, w) ∷ rows
      go Ordering.lt c ih = rw (c, put, ih (ground (arith, text_eq_of_lt k key c)))
      go Ordering.eq c ih =
          rw (c, put) (ground (arith, text_eq_iff k key, eq_of_compare_text k key))
      go Ordering.gt c ih =
          absurd (cc (lookup-Above key ((k, w) ∷ rows) (Above-of_gt k w key rows c (h.0))))

  -- A predicate of every row survives.
  pub AllRows-put :
      (P : Text × V → Type 0) (key : Text) (v : V) (rows : List (Text × V))
      → ((k : Text) → P (k, v))
      → AllRows P rows
      → AllRows P (put key v rows)
  unfolding put
  AllRows-put P key v [] p h = (p key, tt)
  AllRows-put P key v ((k, w) ∷ rows) p h =
      go (compare_text k key) refl (AllRows-put P key v rows p (h.1))
    where
      go :
          (o : Ordering)
          → compare_text k key ≡ o
          → AllRows P (put key v rows)
          → AllRows P (put key v ((k, w) ∷ rows))
      go Ordering.lt c ih = rw (c, put) (h.0, ih)
      go Ordering.eq c ih = rw (c, put) (p k, h.1)
      go Ordering.gt c ih = rw (c, put) (p key, h)

  pub AllRows-delete :
      (P : Text × V → Type 0) (key : Text) (rows : List (Text × V))
      → AllRows P rows
      → AllRows P (delete key rows)
  unfolding delete
  AllRows-delete P key [] h = tt
  AllRows-delete P key ((k, w) ∷ rows) h =
      go (compare_text k key) refl (AllRows-delete P key rows (h.1))
    where
      go :
          (o : Ordering)
          → compare_text k key ≡ o
          → AllRows P (delete key rows)
          → AllRows P (delete key ((k, w) ∷ rows))
      go Ordering.lt c ih = rw (c, delete) (h.0, ih)
      go Ordering.eq c ih = rw (c, delete) (h.1)
      go Ordering.gt c ih = rw (c, delete) h

  pub AllRows-lookup :
      (P : V → Type 0) (key : Text) (v : V) (rows : List (Text × V))
      → AllRows (λ r. P (r.1)) rows
      → lookup key rows ≡ some v
      → P v
  AllRows-lookup P key v [] h e = cc
  AllRows-lookup P key v ((k, w) ∷ rows) h e = elim (Bool-cases (text_eq k key)) [
    | inl same ↦ subst P {x = w} {y = v} (ground arith) (h.0)
    | inr other ↦ AllRows-lookup P key v rows (h.1) (ground arith)
  ]
