-- ===== src/Table/Places.antt =====
-- What `get`, `insert` and `remove` do at the place that the search gives.
use Prim.Native.Nat.{Ordering}
use hopdns.Base.{
  ◌≡◌, refl, sym, ap, ◌∙◌, List, [], ◌∷◌, Option, none, some, true, false, Bool, arith, get_elem?,
  ◌>>=◌,
}
use hopdns.Errors.{ok, err, out_of_memory}
use hopdns.Text.{Text, compare_text}
use hopdns.Text.Order.{text_eq_iff, eq_of_compare_text}
use hopdns.Table.{
  Table, Place, found, vacant, found_at, get, insert_at, remove_at, modify_at, Ascending, IsSorted,
}
use hopdns.Table.Search.{scan, one_on, scan_step, find_row-scan}
use hopdns.Table.Rows.{lookup, put, delete, text_eq_of_lt, Above-of_gt, lookup-Above}

module _ {ℓ} {V : Type ℓ} where
  fetch : List (Text × V) → Place → Option V
  fetch rows p = do i ← found_at p; row ← get_elem? rows i; some (row.1)

  fetch-one_on :
      (x : Text × V) (rows : List (Text × V)) (p : Place)
      → fetch (x ∷ rows) (one_on p) ≡ fetch rows p
  unfolding fetch
  fetch-one_on x rows (found i) = refl
  fetch-one_on x rows (vacant i) = refl

  fetch-scan :
      (key : Text) (rows : List (Text × V))
      → Ascending rows
      → fetch rows (scan rows key) ≡ lookup key rows
  fetch-scan key [] h = unfold fetch scan in refl
  fetch-scan key ((k, v) ∷ rows) h = go (compare_text k key) refl (fetch-scan key rows (h.1))
    where
      go :
          (o : Ordering)
          → compare_text k key ≡ o
          → fetch rows (scan rows key) ≡ lookup key rows
          → fetch ((k, v) ∷ rows) (scan ((k, v) ∷ rows) key) ≡ lookup key ((k, v) ∷ rows)
      go Ordering.lt c ih = rw (scan_step k v rows key _ c, fetch-one_on, text_eq_of_lt k key c) ih
      go Ordering.eq c ih =
          rw (scan_step k v rows key _ c, (text_eq_iff k key).1 (eq_of_compare_text k key c))
            (unfold fetch in refl)
      go Ordering.gt c ih = rw (scan_step k v rows key _ c) (
          unfold fetch in sym (lookup-Above key ((k, v) ∷ rows) (Above-of_gt k v key rows c (h.0))))

  -- On a sorted table `get` finds the value of the key.
  pub get-lookup : (key : Text) (t : Table V) → IsSorted t → get key t ≡ lookup key t.rows
  unfolding get fetch
  get-lookup key t h = ap (fetch t.rows) (find_row-scan t.rows key h) ∙ fetch-scan key t.rows h

  insert_at-one_on :
      (g : Bool) (key : Text) (value : V) (x : Text × V) (rows : List (Text × V)) (p : Place)
      → insert_at g key value (x ∷ rows) (one_on p)
        ≡ (x ∷ (insert_at g key value rows p).0, (insert_at g key value rows p).1)
  unfolding insert_at
  insert_at-one_on g key value x rows (found i) = ground arith
  insert_at-one_on g key value x rows (vacant i) = ground arith

  remove_at-one_on :
      (x : Text × V) (rows : List (Text × V)) (p : Place)
      → remove_at (x ∷ rows) (one_on p) ≡ (x ∷ (remove_at rows p).0, (remove_at rows p).1)
  unfolding remove_at
  remove_at-one_on x rows (found i) = ground arith
  remove_at-one_on x rows (vacant i) = ground arith

  pub insert_at-put :
      (key : Text) (value : V) (rows : List (Text × V))
      → Ascending rows
      → insert_at true key value rows (scan rows key) ≡ (put key value rows, ok (lookup key rows))
  unfolding put
  insert_at-put key value [] h = unfold insert_at scan in refl
  insert_at-put key value ((k, v) ∷ rows) h =
      go (compare_text k key) refl (insert_at-put key value rows (h.1))
    where
      go :
          (o : Ordering)
          → compare_text k key ≡ o
          → insert_at true key value rows (scan rows key)
            ≡ (put key value rows, ok (lookup key rows))
          → insert_at true key value ((k, v) ∷ rows) (scan ((k, v) ∷ rows) key)
            ≡ (put key value ((k, v) ∷ rows), ok (lookup key ((k, v) ∷ rows)))
      go Ordering.lt c ih =
          rw (scan_step k v rows key _ c, insert_at-one_on, ih, c, put, text_eq_of_lt k key c)
      go Ordering.eq c ih =
          rw
            (scan_step k v rows key _ c, c, put, (text_eq_iff k key).1 (eq_of_compare_text k key c))
            (unfold insert_at in refl)
      go Ordering.gt c ih =
          rw
            (
              scan_step k v rows key _ c,
              c,
              put,
              lookup-Above key ((k, v) ∷ rows) (Above-of_gt k v key rows c (h.0)),
            )
            (unfold insert_at in refl)

  pub insert_at_refused :
      (key : Text) (value : V) (rows : List (Text × V))
      → Ascending rows
      → lookup key rows ≡ none
      → insert_at false key value rows (scan rows key) ≡ (rows, err out_of_memory)
  insert_at_refused key value [] h n = unfold insert_at scan in refl
  insert_at_refused key value ((k, v) ∷ rows) h n =
      go (compare_text k key) refl (insert_at_refused key value rows (h.1))
    where
      go :
          (o : Ordering)
          → compare_text k key ≡ o
          → (lookup key rows ≡ none
              → insert_at false key value rows (scan rows key) ≡ (rows, err out_of_memory))
          → insert_at false key value ((k, v) ∷ rows) (scan ((k, v) ∷ rows) key)
            ≡ ((k, v) ∷ rows, err out_of_memory)
      go Ordering.lt c ih =
          rw (
            scan_step k v rows key _ c,
            insert_at-one_on,
            ih (ground (arith, text_eq_of_lt k key c)),
          )
      go Ordering.eq c ih = ground (arith, text_eq_iff k key, eq_of_compare_text k key c)
      go Ordering.gt c ih = rw (scan_step k v rows key _ c) (unfold insert_at in refl)

  pub remove_at-delete :
      (key : Text) (rows : List (Text × V))
      → Ascending rows
      → remove_at rows (scan rows key) ≡ (delete key rows, lookup key rows)
  unfolding delete
  remove_at-delete key [] h = unfold remove_at scan in refl
  remove_at-delete key ((k, v) ∷ rows) h =
      go (compare_text k key) refl (remove_at-delete key rows (h.1))
    where
      go :
          (o : Ordering)
          → compare_text k key ≡ o
          → remove_at rows (scan rows key) ≡ (delete key rows, lookup key rows)
          → remove_at ((k, v) ∷ rows) (scan ((k, v) ∷ rows) key)
            ≡ (delete key ((k, v) ∷ rows), lookup key ((k, v) ∷ rows))
      go Ordering.lt c ih =
          rw (scan_step k v rows key _ c, remove_at-one_on, ih, c, delete, text_eq_of_lt k key c)
      go Ordering.eq c ih =
          rw
            (
              scan_step k v rows key _ c,
              c,
              delete,
              (text_eq_iff k key).1 (eq_of_compare_text k key c),
            )
            (unfold remove_at in refl)
      go Ordering.gt c ih =
          rw
            (
              scan_step k v rows key _ c,
              c,
              delete,
              lookup-Above key ((k, v) ∷ rows) (Above-of_gt k v key rows c (h.0)),
            )
            (unfold remove_at in refl)

  pub insert_at_known :
      (g : Bool) (key : Text) (value v : V) (rows : List (Text × V))
      → Ascending rows
      → lookup key rows ≡ some v
      → insert_at g key value rows (scan rows key) ≡ insert_at true key value rows (scan rows key)
  insert_at_known g key value v [] h e = cc
  insert_at_known g key value v ((k, w) ∷ rows) h e =
      go (compare_text k key) refl (insert_at_known g key value v rows (h.1))
    where
      go :
          (o : Ordering)
          → compare_text k key ≡ o
          → (lookup key rows ≡ some v
              → insert_at g key value rows (scan rows key)
                ≡ insert_at true key value rows (scan rows key))
          → insert_at g key value ((k, w) ∷ rows) (scan ((k, w) ∷ rows) key)
            ≡ insert_at true key value ((k, w) ∷ rows) (scan ((k, w) ∷ rows) key)
      go Ordering.lt c ih = rw (
        scan_step k w rows key _ c,
        insert_at-one_on,
        insert_at-one_on,
        ih (ground (arith, text_eq_of_lt k key c)),
      )
      go Ordering.eq c ih = rw (scan_step k w rows key _ c) (unfold insert_at in refl)
      go Ordering.gt c ih =
          absurd (cc (lookup-Above key ((k, w) ∷ rows) (Above-of_gt k w key rows c (h.0))))

  modify_at-one_on :
      (f : V → V) (x : Text × V) (rows : List (Text × V)) (p : Place)
      → modify_at f (x ∷ rows) (one_on p) ≡ x ∷ modify_at f rows p
  unfolding modify_at
  modify_at-one_on f x rows (found i) = ground arith
  modify_at-one_on f x rows (vacant i) = refl

  -- A write through a reference is an `insert` of the new value.
  pub modify_at-put :
      (f : V → V) (key : Text) (v : V) (rows : List (Text × V))
      → Ascending rows
      → lookup key rows ≡ some v
      → modify_at f rows (scan rows key) ≡ put key (f v) rows
  unfolding put
  modify_at-put f key v [] h e = cc
  modify_at-put f key v ((k, w) ∷ rows) h e =
      go (compare_text k key) refl (modify_at-put f key v rows (h.1))
    where
      go :
          (o : Ordering)
          → compare_text k key ≡ o
          → (lookup key rows ≡ some v → modify_at f rows (scan rows key) ≡ put key (f v) rows)
          → modify_at f ((k, w) ∷ rows) (scan ((k, w) ∷ rows) key) ≡ put key (f v) ((k, w) ∷ rows)
      go Ordering.lt c ih = rw (
        scan_step k w rows key _ c,
        modify_at-one_on,
        c,
        put,
        ih (ground (arith, text_eq_of_lt k key c)),
      )
      go Ordering.eq c ih =
          rw (scan_step k w rows key _ c, c, put)
            (unfold modify_at in ground (arith, text_eq_iff k key, eq_of_compare_text k key))
      go Ordering.gt c ih =
          absurd (cc (lookup-Above key ((k, w) ∷ rows) (Above-of_gt k w key rows c (h.0))))
