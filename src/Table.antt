-- ===== src/Table.antt =====
-- src/table.rs: a table of rows sorted by key, searched by halving.
pub mod Search
pub mod Rows
pub mod Places
pub mod Laws
pub mod Has
use Prim.Native.Nat.{Ordering}
use hopdns.Base.{
  ℕ, zero, suc, ◌+◌, ◌-◌, ◌/◌, Bool, true, false, ◌≡◌, List, [], ◌∷◌, Option, none, some, ltb, ◌==◌,
  if◌then◌else◌, ◌>>=◌, length, get_elem?, erase_idx, insert_idx, set, map,
}
use hopdns.Errors.{Result, ok, err, out_of_memory}
use hopdns.Text.{Text, compare_text}

pub record Table {ℓ} (V : Type ℓ) : Type ℓ where
  pub rows : List (Text × V)

-- `Result<usize, usize>` of a search: the row of the key, or the place where it belongs.
pub data Place : Type 0 where
  found : ℕ → Place
  vacant : ℕ → Place

-- `Place::ok`.
abbrev pub found_at : Place → Option ℕ
found_at (found i) = some i
found_at (vacant i) = none

module _ {ℓ} {V : Type ℓ} where
  unfoldable pub new : Table V
  new = record { rows = [] }

  unfoldable pub len : Table V → ℕ
  len t = length t.rows

  unfoldable pub is_empty : Table V → Bool
  is_empty t = length t.rows == 0

  -- `k.as_str().cmp(key)` at row `i`; a search stays inside the rows.
  compare_row : List (Text × V) → Text → ℕ → Ordering
  compare_row rows key i = elim (get_elem? rows i) [
    | some (k, _) ↦ compare_text k key
    | none ↦ Ordering.gt
  ]

  next_base : List (Text × V) → Text → ℕ → ℕ → ℕ
  next_base rows key base mid = elim (compare_row rows key mid) [ Ordering.gt ↦ base | _ ↦ mid ]

  -- The loop of `binary_search_by`: `size` rows from `base` on are left, and halve each round.
  search_loop : ℕ → List (Text × V) → Text → ℕ → ℕ → ℕ
  search_loop zero rows key base size = base
  search_loop (suc fuel) rows key base size =
      let half = size / 2 in
      let rest = search_loop fuel rows key (next_base rows key base (base + half)) (size - half) in
      if ltb 1 size then rest else base

  place_at : List (Text × V) → Text → ℕ → Place
  place_at rows key base = elim (compare_row rows key base) [
    | Ordering.eq ↦ found base
    | Ordering.lt ↦ vacant (base + 1)
    | Ordering.gt ↦ vacant base
  ]

  -- `rows.binary_search_by(..)`; each round leaves fewer rows, so `length rows` rounds are enough.
  pub find_row : List (Text × V) → Text → Place
  unfolding search_loop next_base place_at compare_row
  find_row [] key = vacant 0
  find_row (r ∷ rows) key =
      let n = length (r ∷ rows) in place_at (r ∷ rows) key (search_loop n (r ∷ rows) key 0 n)

  unfoldable pub find : Text → Table V → Place
  unfolding find_row
  find key t = find_row t.rows key

  unfoldable pub get : Text → Table V → Option V
  unfolding find
  get key t = do i ← found_at (find key t); row ← get_elem? t.rows i; some (row.1)

  unfoldable pub contains_key : Text → Table V → Bool
  unfolding find
  contains_key key t = elim (find key t) [ found _ ↦ true | vacant _ ↦ false ]

  -- `get_mut(i)` and a write, `insert` and `remove`, at a place that a search gave.
  pub modify_at : (V → V) → List (Text × V) → Place → List (Text × V)
  modify_at f rows (found i) = elim (get_elem? rows i) [
    | some (k, v) ↦ set rows i (k, f v)
    | none ↦ rows
  ]
  modify_at f rows (vacant i) = rows

  pub insert_at : Bool → Text → V → List (Text × V) → Place → List (Text × V) × Result (Option V)
  insert_at grant key value rows (found i) = elim (get_elem? rows i) [
    | some (k, v) ↦ (set rows i (k, value), ok (some v))
    | none ↦ (rows, ok none)
  ]
  insert_at grant key value rows (vacant i) =
      if grant then (insert_idx rows i (key, value), ok none) else (rows, err out_of_memory)

  pub remove_at : List (Text × V) → Place → List (Text × V) × Option V
  remove_at rows (found i) = elim (get_elem? rows i) [
    | some (k, v) ↦ (erase_idx rows i, some v)
    | none ↦ (rows, none)
  ]
  remove_at rows (vacant i) = (rows, none)

  -- A write through the reference of `get_mut`; a missing key gives no reference.
  unfoldable pub modify : Text → (V → V) → Table V → Table V
  unfolding find modify_at
  modify key f t = record { rows = modify_at f t.rows (find key t) }

  -- `grant` is whether the allocator gives what the call reserves; a known key reserves nothing.
  unfoldable pub insert : Bool → Text → V → Table V → Table V × Result (Option V)
  unfolding find insert_at
  insert grant key value t =
      let (rows', previous) = insert_at grant key value t.rows (find key t) in
      (record { rows = rows' }, previous)

  unfoldable pub remove : Text → Table V → Table V × Option V
  unfolding find remove_at
  remove key t =
      let (rows', previous) = remove_at t.rows (find key t) in (record { rows = rows' }, previous)

  unfoldable pub values : Table V → List V
  values t = map (λ (r : Text × V). r.1) t.rows

  unfoldable pub keys : Table V → List Text
  keys t = map (λ (r : Text × V). r.0) t.rows

  abbrev pub AllRows {κ} : (Text × V → Type κ) → List (Text × V) → Type κ
  AllRows P [] = Unit {κ}
  AllRows P (r ∷ rows) = P r × AllRows P rows

  -- "`rows` is strikt oplopend gesorteerd op sleutel".
  abbrev pub Ascending : List (Text × V) → Type 0
  Ascending [] = Unit
  Ascending (r ∷ rows) = AllRows (λ s. compare_text (r.0) (s.0) ≡ Ordering.lt) rows × Ascending rows

abbrev pub IsSorted {ℓ} : {V : Type ℓ} → Table V → Type 0
IsSorted t = Ascending t.rows
