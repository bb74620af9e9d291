-- ===== src/Config/Yaml.antt =====
-- src/config.rs: the YAML file, line by line.
use hopdns.Base.{
  ℕ, ◌+◌, Bool, false, not, ◌||◌, List, [], ◌∷◌, ◌++◌, Option, none, some, ◌==◌, if◌then◌else◌,
}
use hopdns.Cnames
use hopdns.Cnames.{Cnames}
use hopdns.Errors.{Result, ok, err, yaml}
use hopdns.Text
use hopdns.Text.{Text, codes, text_eq, strip_suffix, split_pieces}
use hopdns.Text.Space.{trim, trim_start, trim_end}
use hopdns.Config.Scalars.{strip_comment, split_key, unquote, starts_with_space}

pub record Config : Type 0 where
  pub cnames : List (Text × Text)

pub data Section : Type 0 where
  top : Section
  cnames : Section
  other : Section

-- `str::lines`: a line feed ends a line, with a carriage return in front or not; what stands behind
-- the last one is a line if it is not empty.
unfoldable pub ended_lines : Text → List Text → List Text
ended_lines line [] = if Text.is_empty line then [] else line ∷ []
ended_lines line (next ∷ rest) =
    (elim (strip_suffix line (13 ∷ [])) [ some l ↦ l | none ↦ line ]) ∷ ended_lines next rest

unfoldable pub lines : Text → List Text
lines t = let (first, rest) = split_pieces (λ c. c == 10) t in ended_lines first rest

unfoldable pub starts_with_tab : Text → Bool
starts_with_tab [] = false
starts_with_tab (c ∷ t) = c == 9

-- A line that is not indented: a key of the file.
unfoldable pub top_line : ℕ → Text → List (Text × Text) → Result (Section × List (Text × Text))
top_line n line pairs = elim (split_key line) [
  | none ↦ err (yaml n)
  | some (key, rest) ↦
      if text_eq key (codes "cnames")
      then (if not (Text.is_empty (trim rest) || text_eq (trim rest) (codes "{}"))
          then err (yaml n)
          else ok (Section.cnames, pairs))
      else ok (Section.other, pairs)
]

-- An indented line of `cnames`.
unfoldable pub pair_line : ℕ → Text → List (Text × Text) → Result (Section × List (Text × Text))
pair_line n line pairs = elim (split_key (trim_start line)) [
  | none ↦ err (yaml n)
  | some (key, rest) ↦ elim (unquote (trim rest)) [
    | none ↦ err (yaml n)
    | some value ↦ ok (Section.cnames, pairs ++ (key, value) ∷ [])
  ]
]

unfoldable pub section_line :
    Section → ℕ → Text → List (Text × Text) → Result (Section × List (Text × Text))
section_line Section.top n line pairs = err (yaml n)
section_line Section.other n line pairs = ok (Section.other, pairs)
section_line Section.cnames n line pairs = pair_line n line pairs

-- The body of the loop; `n` is the number of the line.
unfoldable pub read_line :
    ℕ → Text → Section → List (Text × Text) → Result (Section × List (Text × Text))
read_line n raw section pairs =
    let line = trim_end (strip_comment raw) in
    if Text.is_empty (trim line) || text_eq line (codes "---")
    then ok (section, pairs)
    else if starts_with_tab line
    then err (yaml n)
    else if not (starts_with_space line)
    then top_line n line pairs
    else section_line section n line pairs

unfoldable pub read_lines : ℕ → List Text → Section → List (Text × Text) → Result Config
read_lines n [] section pairs = ok (record { cnames = pairs })
read_lines n (raw ∷ rest) section pairs = elim (read_line n raw section pairs) [
  | err e ↦ err e
  | ok (section', pairs') ↦ read_lines (n + 1) rest section' pairs'
]

-- `Config::parse`.
unfoldable pub parse_config : Text → Result Config
parse_config text = read_lines 1 (lines text) Section.top []

-- The last pair of the name.
unfoldable pub last_value : List (Text × Text) → Text → Option Text
last_value [] name = none
last_value ((k, v) ∷ rest) name = elim (last_value rest name) [
  | some later ↦ some later
  | none ↦ if text_eq k name then some v else none
]

unfoldable pub cname : Config → Text → Option Text
cname c name = last_value c.cnames name

unfoldable pub cname_table : Config → Cnames
cname_table c = Cnames.new c.cnames
