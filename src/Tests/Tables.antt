-- ===== src/Tests/Tables.antt =====
-- src/table.rs: a table of three rows.
use hopdns.Base.{ℕ, true, [], ◌∷◌, none, some, ◌≡◌, refl, if◌then◌else◌}
use hopdns.Table.{Table, IsSorted, find_row, insert, get}
use hopdns.Table.Search.{scan, find_row-scan}
use hopdns.Table.Laws.{get-insert}
use hopdns.Text.{codes, text_eq, compare_text}

abbrev sample : Table ℕ
sample = record { rows = (codes "api", 1) ∷ (codes "db", 2) ∷ (codes "web", 3) ∷ [] }

sample-IsSorted : IsSorted sample
unfolding compare_text
sample-IsSorted = ((refl, (refl, tt)), ((refl, tt), (tt, tt)))

find_row-scan_example : find_row sample.rows (codes "web") ≡ scan sample.rows (codes "web")
find_row-scan_example = find_row-scan sample.rows (codes "web") sample-IsSorted

get-insert_example :
    get (codes "db") (insert true (codes "cache") 7 sample).0
    ≡ (if text_eq (codes "cache") (codes "db") then some 7 else get (codes "db") sample)
get-insert_example = get-insert (codes "cache") (codes "db") 7 sample sample-IsSorted

cache_is_new : get (codes "cache") sample ≡ none
unfolding get compare_text
cache_is_new = refl
