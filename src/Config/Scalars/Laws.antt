-- ===== src/Config/Scalars/Laws.antt =====
-- `unquote` reads back what is written between quotes.
use hopdns.Base.{
  ◌-◌, false, [], ◌∷◌, ◌++◌, some, ◌≡◌, refl, inl, inr, arith, ◌==◌, Bool-cases, length,
  length-append, take-append, if◌then◌else◌,
}
use hopdns.Text.{Text, strip_prefix, strip_suffix}
use hopdns.Server.Zone.Suffix.{ends_with-append}
use hopdns.Config.Scalars.{merge_quotes, unescape, escape_of, unquote}

strip_suffix-append : (t z : Text) → strip_suffix (t ++ z) z ≡ some t
unfolding strip_suffix
strip_suffix-append t z =
    let width : length (t ++ z) - length z ≡ length t = omega (arith, length-append t z) in
    rw (ends_with-append t z, strip_suffix) (rw (width, take-append) refl)

-- A value between apostrophes: each of its own is written twice.
unfoldable pub doubled : Text → Text
doubled [] = []
doubled (c ∷ t) = if c == 39 then 39 ∷ 39 ∷ doubled t else c ∷ doubled t

merge_quotes-doubled : (v : Text) → merge_quotes false (doubled v) ≡ v
unfolding merge_quotes doubled
merge_quotes-doubled [] = refl
merge_quotes-doubled (c ∷ t) = elim (Bool-cases (c == 39)) [
  | inl quote ↦
      let e : c ≡ 39 = ground arith in rw (quote, doubled) (rw (merge_quotes-doubled t) (rw e refl))
  | inr plain ↦ rw (plain, doubled) (rw (plain, merge_quotes) (rw (merge_quotes-doubled t) refl))
]

-- `unquote` gives back a value that stands between apostrophes with each of its own written twice.
pub unquote-doubled : (v : Text) → unquote (39 ∷ doubled v ++ 39 ∷ []) ≡ some v
unfolding unquote strip_prefix
unquote-doubled v =
    rw (strip_suffix-append (doubled v) (39 ∷ []), unquote) (rw (merge_quotes-doubled v) refl)

-- A value between double quotes: a backslash before each of its quotes and backslashes.
unfoldable pub escaped : Text → Text
escaped [] = []
escaped (c ∷ t) =
    if c == 34 then 92 ∷ 34 ∷ escaped t else if c == 92 then 92 ∷ 92 ∷ escaped t else c ∷ escaped t

unescape-escaped : (v : Text) → unescape false (escaped v) ≡ some v
unfolding unescape escaped escape_of
unescape-escaped [] = refl
unescape-escaped (c ∷ t) = elim (Bool-cases (c == 34)) [
  | inl quote ↦
      let e : c ≡ 34 = ground arith in rw (quote, escaped) (rw (unescape-escaped t) (rw e refl))
  | inr other ↦
      rw (other, escaped)
        (elim (Bool-cases (c == 92)) [
          | inl slash ↦
              let e : c ≡ 92 = ground arith in rw slash (rw (unescape-escaped t) (rw e refl))
          | inr plain ↦ rw plain (rw (plain, unescape) (rw (unescape-escaped t) refl))
        ])
]

-- `unquote` gives back a value that stands between double quotes with a backslash before each of
-- its quotes and backslashes.
pub unquote-escaped : (v : Text) → unquote (34 ∷ escaped v ++ 34 ∷ []) ≡ some v
unfolding unquote strip_prefix
unquote-escaped v = rw (strip_suffix-append (escaped v) (34 ∷ []), unquote) (unescape-escaped v)
