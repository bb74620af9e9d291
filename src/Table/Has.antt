-- ===== src/Table/Has.antt =====
-- src/table.rs: `contains_key` of a sorted table, said by `get`.
use Prim.Native.Nat.{Ordering}
use hopdns.Base.{◌≡◌, refl, sym, ap, ◌∙◌, List, [], ◌∷◌, Option, none, some, true, false, Bool}
use hopdns.Text.{Text, compare_text}
use hopdns.Text.Order.{text_eq_iff, eq_of_compare_text}
use hopdns.Table.{Table, Place, found, vacant, get, contains_key, Ascending, IsSorted}
use hopdns.Table.Places.{get-lookup}
use hopdns.Table.Rows.{lookup, text_eq_of_lt, Above-of_gt, lookup-Above}
use hopdns.Table.Search.{scan, one_on, scan_step, find_row-scan}

abbrev is_found : Place → Bool
is_found (found _) = true
is_found (vacant _) = false

is_found-one_on : (p : Place) → is_found (one_on p) ≡ is_found p
is_found-one_on (found i) = refl
is_found-one_on (vacant i) = refl

module _ {ℓ} {V : Type ℓ} where
  abbrev has_value : Option V → Bool
  has_value (some _) = true
  has_value none = false

  is_found-scan :
      (key : Text) (rows : List (Text × V))
      → Ascending rows
      → is_found (scan rows key) ≡ has_value (lookup key rows)
  is_found-scan key [] h = unfold scan in refl
  is_found-scan key ((k, v) ∷ rows) h = go (compare_text k key) refl (is_found-scan key rows (h.1))
    where
      go :
          (o : Ordering)
          → compare_text k key ≡ o
          → is_found (scan rows key) ≡ has_value (lookup key rows)
          → is_found (scan ((k, v) ∷ rows) key) ≡ has_value (lookup key ((k, v) ∷ rows))
      go Ordering.lt c ih =
          rw (scan_step k v rows key _ c, is_found-one_on, text_eq_of_lt k key c) ih
      go Ordering.eq c ih =
          rw (scan_step k v rows key _ c, (text_eq_iff k key).1 (eq_of_compare_text k key c)) refl
      go Ordering.gt c ih =
          rw (scan_step k v rows key _ c) (
            sym
              (ap has_value (lookup-Above key ((k, v) ∷ rows) (Above-of_gt k v key rows c (h.0)))))

  has_value-get :
      (key : Text) (t : Table V) → IsSorted t → contains_key key t ≡ has_value (get key t)
  unfolding contains_key
  has_value-get key t h =
      ap is_found (find_row-scan t.rows key h)
      ∙ (is_found-scan key t.rows h ∙ sym (ap has_value (get-lookup key t h)))

  some_value : (o : Option V) → has_value o ≡ true → (v : V) × (o ≡ some v)
  some_value none h = absurd cc
  some_value (some v) h = (v, refl)

  -- A sorted table contains the keys that have a value.
  pub contains_key-get :
      (key : Text) (t : Table V)
      → IsSorted t
      → contains_key key t ≡ true
      → (v : V) × (get key t ≡ some v)
  contains_key-get key t h e = some_value (get key t) (sym (has_value-get key t h) ∙ e)

  pub get-contains_key :
      (key : Text) (t : Table V) (v : V)
      → IsSorted t
      → get key t ≡ some v
      → contains_key key t ≡ true
  get-contains_key key t v h e = has_value-get key t h ∙ ap has_value e
