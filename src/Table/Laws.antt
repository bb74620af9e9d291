-- ===== src/Table/Laws.antt =====
-- The table as a map: the laws of `get`, `insert` and `remove`.
use hopdns.Base.{
  List, ◌⊎◌, inl, inr, Option-cases, ◌≡◌, refl, sym, ap, ◌∙◌, none, some, true, false, Bool,
  if◌then◌else◌,
}
use hopdns.Errors.{ok, err, out_of_memory}
use hopdns.Text.{Text, text_eq}
use hopdns.Table.{Table, new, get, modify, insert, remove, IsSorted}
use hopdns.Table.Search.{find_row-scan}
use hopdns.Table.Rows.{
  put, delete, Ascending-put, lookup-put, Ascending-delete, lookup-delete, put_same,
}
use hopdns.Table.Places.{
  insert_at-put, insert_at_refused, remove_at-delete, insert_at_known, modify_at-put, get-lookup,
}

module _ {ℓ} {V : Type ℓ} where
  -- `insert` on a sorted table, in terms of the rows.
  pub insert-put :
      (key : Text) (value : V) (t : Table V)
      → IsSorted t
      → insert true key value t ≡ (record { rows = put key value t.rows }, ok (get key t))
  unfolding insert
  insert-put key value t h =
      rw (get-lookup key t h, find_row-scan t.rows key h, insert_at-put key value t.rows h)

  pub remove-delete :
      (key : Text) (t : Table V)
      → IsSorted t
      → remove key t ≡ (record { rows = delete key t.rows }, get key t)
  unfolding remove
  remove-delete key t h =
      rw (get-lookup key t h, find_row-scan t.rows key h, remove_at-delete key t.rows h)

  -- If a sorted table does not have the key and memory is refused, `insert` gives the error
  -- out_of_memory and leaves the table as it was.
  pub insert_refused :
      (key : Text) (value : V) (t : Table V)
      → IsSorted t
      → get key t ≡ none
      → insert false key value t ≡ (t, err out_of_memory)
  unfolding insert
  insert_refused key value t h n = rw (
    find_row-scan t.rows key h,
    insert_at_refused key value t.rows h (sym (get-lookup key t h) ∙ n),
  )

  pub insert_known :
      (g : Bool) (key : Text) (value v : V) (t : Table V)
      → IsSorted t
      → get key t ≡ some v
      → insert g key value t ≡ insert true key value t
  unfolding insert
  insert_known g key value v t h e = rw (
    find_row-scan t.rows key h,
    insert_at_known g key value v t.rows h (sym (get-lookup key t h) ∙ e),
  )

  pub modify-put :
      (key : Text) (f : V → V) (v : V) (t : Table V)
      → IsSorted t
      → get key t ≡ some v
      → modify key f t ≡ record { rows = put key (f v) t.rows }
  unfolding modify
  modify-put key f v t h e =
      rw (find_row-scan t.rows key h, modify_at-put f key v t.rows h (sym (get-lookup key t h) ∙ e))

  pub get-put :
      (key j : Text) (value : V) (t : Table V)
      → IsSorted t
      → get j (record { rows = put key value t.rows })
        ≡ (if text_eq key j then some value else get j t)
  get-put key j value t h = rw (
    get-lookup j (record { rows = put key value t.rows }) (Ascending-put key value t.rows h),
    get-lookup j t h,
    lookup-put,
  )

  -- What `insert` does, whatever the allocator answers.
  pub insert_cases :
      (g : Bool) (key : Text) (value : V) (t : Table V)
      → IsSorted t
      → (insert g key value t ≡ insert true key value t)
        ⊎ ((g ≡ false) × (get key t ≡ none) × (insert g key value t ≡ (t, err out_of_memory)))
  insert_cases true key value t h = inl refl
  insert_cases false key value t h = elim (Option-cases (get key t)) [
    | inl e ↦ inr (refl, e, insert_refused key value t h e)
    | inr (v, e) ↦ inl (insert_known false key value v t h e)
  ]

  -- An insertion into a sorted table leaves it sorted, whether memory is granted or not.
  pub insert-IsSorted :
      (g : Bool) (key : Text) (value : V) (t : Table V)
      → IsSorted t
      → IsSorted (insert g key value t).0
  insert-IsSorted g key value t h = elim (insert_cases g key value t h) [
    | inl e ↦ rw (e, insert-put key value t h) (Ascending-put key value t.rows h)
    | inr (_, _, e) ↦ rw e h
  ]

  -- After an insertion with memory granted into a sorted table, `get` gives the new value for the
  -- key, and for every other key what it gave before.
  pub get-insert :
      (key j : Text) (value : V) (t : Table V)
      → IsSorted t
      → get j (insert true key value t).0 ≡ (if text_eq key j then some value else get j t)
  get-insert key j value t h = rw (insert-put key value t h) (get-put key j value t h)

  pub remove-IsSorted : (key : Text) (t : Table V) → IsSorted t → IsSorted (remove key t).0
  remove-IsSorted key t h = rw (remove-delete key t h) (Ascending-delete key t.rows h)

  -- After a removal from a sorted table, `get` gives nothing for the key, and for every other key
  -- what it gave before.
  pub get-remove :
      (key j : Text) (t : Table V)
      → IsSorted t
      → get j (remove key t).0 ≡ (if text_eq key j then none else get j t)
  get-remove key j t h = rw (
    remove-delete key t h,
    get-lookup j (record { rows = delete key t.rows }) (Ascending-delete key t.rows h),
    get-lookup j t h,
    lookup-delete key j t.rows h,
  )

  -- Writing back what was read changes nothing.
  pub modify_same :
      (key : Text) (v : V) (t : Table V)
      → IsSorted t
      → get key t ≡ some v
      → modify key (λ _. v) t ≡ t
  modify_same key v t h e = rw (modify-put key (λ _. v) v t h e) (
      ap (λ (rows : List (Text × V)). record { rows = rows })
        (put_same key v t.rows h (sym (get-lookup key t h) ∙ e)))

  pub get-new : (key : Text) → get key (new {V = V}) ≡ none
  unfolding get new
  get-new key = refl
