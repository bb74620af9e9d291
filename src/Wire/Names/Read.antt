-- ===== src/Wire/Names/Read.antt =====
-- src/wire.rs: `name_text` on the bytes that `put_name` writes.
use hopdns.Base.{
  ℕ, suc, ◌+◌, ◌≤◌, ◌<◌, Bool, true, false, ◌||◌, List, [], ◌∷◌, ◌++◌, some, ◌≡◌, refl, sym, ap,
  ◌∙◌, arith, lt→ltb, ◌==◌, if◌then◌else◌, length, All, length-append, append_assoc, append-nil,
  map, ==_iff,
}
use hopdns.Text.{Text, lowercase, to_ascii_lowercase, is_empty, split, split_pieces}
use hopdns.Wire.Names.{is_host_byte, name_text_walk, name_text}
use hopdns.Wire.Names.Skip.{positive, first_bytes, length-first}
use hopdns.Wire.Names.Wires.{label_bytes, IsLabel, labels_of, name_bytes}

abbrev pub IsHost : Text → Type 0
IsHost l = All (λ c. is_host_byte c ≡ true) l

-- The bytes of a label are written in small letters behind `out`.
read_label :
    (l bs out : List ℕ)
    → IsHost l
    → length out + length l ≤ 255
    → name_text_walk (l ++ bs) (length l) out ≡ name_text_walk bs 0 (out ++ lowercase l)
unfolding name_text_walk lowercase
read_label [] bs out host fits = ap (name_text_walk bs 0) (sym (append-nil out))
read_label (b ∷ l) bs out host fits =
    let c = to_ascii_lowercase b in
    rw (host.0, name_text_walk)
      (rw (lt→ltb (length out) 255 (omega arith)) (
        read_label l bs (out ++ c ∷ []) (host.1) (omega (arith, length-append out (c ∷ [])))
        ∙ ap (name_text_walk bs 0) (append_assoc out (c ∷ []) (lowercase l))))

-- The text so far, with a dot where another label follows.
abbrev dotted : List ℕ → List ℕ
dotted [] = []
dotted (c ∷ out) = (c ∷ out) ++ b'.' ∷ []

abbrev written : List ℕ → List Text → List ℕ
written out [] = out
written out (l ∷ ls) = written (dotted out ++ lowercase l) ls

read_first :
    (l bs out : List ℕ)
    → 0 < length l
    → IsHost l
    → length out + 1 + length l ≤ 255
    → name_text_walk (length l ∷ (l ++ bs)) 0 out ≡ name_text_walk bs 0 (dotted out ++ lowercase l)
unfolding name_text_walk
read_first l bs [] long host fits =
    rw (positive (length l) long, name_text_walk) (read_label l bs [] host (omega arith))
read_first l bs (c ∷ out) long host fits =
    rw (positive (length l) long, name_text_walk)
      (rw (lt→ltb 0 (length (c ∷ out)) (omega arith), lt→ltb (length (c ∷ out)) 255 (omega arith))
        (read_label l bs ((c ∷ out) ++ b'.' ∷ []) host
          (omega (arith, length-append (c ∷ out) (b'.' ∷ [])))))

length-map : (l : Text) → length (map to_ascii_lowercase l) ≡ length l
length-map [] = refl
length-map (c ∷ l) = ap suc (length-map l)

dotted-length :
    (out : List ℕ) (l : Text) → length (dotted out ++ lowercase l) ≤ length out + 1 + length l
unfolding lowercase
dotted-length [] l = omega (arith, length-map l)
dotted-length (c ∷ out) l = omega (
  arith,
  length-map l,
  length-append ((c ∷ out) ++ b'.' ∷ []) (map to_ascii_lowercase l),
  length-append (c ∷ out) (b'.' ∷ []),
)

read_labels :
    (labels : List Text) (out tail : List ℕ)
    → All IsLabel labels
    → All IsHost labels
    → length out + 1 + length (name_bytes labels) ≤ 256
    → name_text_walk (name_bytes labels ++ tail) 0 out ≡ some (written out labels)
unfolding name_text_walk
read_labels [] out tail shaped host fits = refl
read_labels (l ∷ ls) out tail shaped host fits =
    let size = length-first l ls in
    ap (λ (bs : List ℕ). name_text_walk bs 0 out) (first_bytes l ls tail)
    ∙ (read_first l (name_bytes ls ++ tail) out (shaped.0.0) (host.0)
          (omega (arith, length-append (label_bytes ls) (0 ∷ [])))
        ∙ read_labels ls (dotted out ++ lowercase l) tail (shaped.1) (host.1)
            (omega (arith, dotted-length out l, length-append (label_bytes ls) (0 ∷ []))))

-- The labels with dots between them.
abbrev joined : List Text → Text
joined [] = []
joined (l ∷ []) = l
joined (l ∷ m ∷ ls) = l ++ b'.' ∷ joined (m ∷ ls)

joined-split : (t : Text) → joined (split (λ c. c == b'.') t) ≡ t
unfolding split split_pieces
joined-split [] = refl
joined-split (c ∷ t) =
    go (c == b'.') (==_iff c b'.').0 ((split_pieces (λ c. c == b'.') t).0)
      ((split_pieces (λ c. c == b'.') t).1) (joined-split t)
  where
    go :
        (b : Bool)
        → (b ≡ true → c ≡ b'.')
        → (p : Text) (ps : List Text) → joined (p ∷ ps) ≡ t
        → joined (
            (if◌then◌else◌ {A = Text × List Text} b ([], p ∷ ps) (c ∷ p, ps)).0
            ∷ (if◌then◌else◌ {A = Text × List Text} b ([], p ∷ ps) (c ∷ p, ps)).1)
          ≡ c ∷ t
    go true dot p ps h = let e = dot refl in rw e (ap (◌∷◌ b'.') h)
    go false dot p [] h = ap (◌∷◌ c) h
    go false dot p (q ∷ ps) h = ap (◌∷◌ c) h

lowercase-append : (a b : Text) → lowercase (a ++ b) ≡ lowercase a ++ lowercase b
unfolding lowercase
lowercase-append [] b = refl
lowercase-append (c ∷ a) b = ap (◌∷◌ (to_ascii_lowercase c)) (lowercase-append a b)

lowercase_dotted : (a b : Text) → lowercase (a ++ b'.' ∷ b) ≡ lowercase a ++ b'.' ∷ lowercase b
unfolding lowercase to_ascii_lowercase
lowercase_dotted a b = lowercase-append a (b'.' ∷ b)

-- More labels behind a text that has begun.
written_more :
    (ls : List Text) (c : ℕ) (out : List ℕ) (l : Text)
    → written (c ∷ out) (l ∷ ls) ≡ (c ∷ out) ++ b'.' ∷ lowercase (joined (l ∷ ls))
written_more [] c out l = append_assoc (c ∷ out) (b'.' ∷ []) (lowercase l)
written_more (m ∷ ls) c out l =
    written_more ls c ((out ++ b'.' ∷ []) ++ lowercase l) m
    ∙ (ap (λ (x : List ℕ). x ++ b'.' ∷ lowercase (joined (m ∷ ls)))
          (append_assoc (c ∷ out) (b'.' ∷ []) (lowercase l))
        ∙ (append_assoc (c ∷ out) (b'.' ∷ lowercase l) (b'.' ∷ lowercase (joined (m ∷ ls)))
            ∙ ap (λ (x : List ℕ). (c ∷ out) ++ b'.' ∷ x)
                (sym (lowercase_dotted l (joined (m ∷ ls))))))

written-joined : (ls : List Text) → All IsLabel ls → written [] ls ≡ lowercase (joined ls)
unfolding lowercase
written-joined [] shaped = refl
written-joined ([] ∷ ls) shaped = absurd (omega (arith, shaped.0.0))
written-joined ((c ∷ l) ∷ []) shaped = refl
written-joined ((c ∷ l) ∷ m ∷ ls) shaped =
    written_more ls (to_ascii_lowercase c) (lowercase l) m
    ∙ sym (lowercase_dotted (c ∷ l) (joined (m ∷ ls)))

-- The bytes of a name that a query reads back: dots, and those of host names.
abbrev pub HostName : Text → Type 0
HostName t = All (λ c. (c == b'.' || is_host_byte c) ≡ true) t

split-IsHost : (t : Text) → HostName t → All IsHost (split (λ c. c == b'.') t)
unfolding split split_pieces
split-IsHost [] host = (tt, tt)
split-IsHost (c ∷ t) host =
    go (c == b'.') (host.0) ((split_pieces (λ c. c == b'.') t).0)
      ((split_pieces (λ c. c == b'.') t).1) (split-IsHost t (host.1))
  where
    go :
        (b : Bool)
        → (b || is_host_byte c) ≡ true
        → (p : Text) (ps : List Text) → All IsHost (p ∷ ps)
        → All IsHost (
            (if◌then◌else◌ {A = Text × List Text} b ([], p ∷ ps) (c ∷ p, ps)).0
            ∷ (if◌then◌else◌ {A = Text × List Text} b ([], p ∷ ps) (c ∷ p, ps)).1)
    go true one p ps h = (tt, h)
    go false one p ps h = ((one, h.0), h.1)

pub labels_of-IsHost : (bare : Text) → HostName bare → All IsHost (labels_of bare)
unfolding is_empty
labels_of-IsHost [] host = tt
labels_of-IsHost (c ∷ t) host = split-IsHost (c ∷ t) host

-- The name comes back in small letters.
pub name_text-labels_of :
    (bare : Text)
    → HostName bare
    → All IsLabel (labels_of bare)
    → length (name_bytes (labels_of bare)) ≤ 255
    → name_text (name_bytes (labels_of bare)) ≡ some (lowercase bare)
unfolding name_text lowercase is_empty
name_text-labels_of [] host shaped short = read_labels [] [] [] tt tt (omega arith)
name_text-labels_of (c ∷ t) host shaped short =
    let labels = split (λ c. c == b'.') (c ∷ t) in
    ap (λ (bs : List ℕ). name_text_walk bs 0 []) (sym (append-nil (name_bytes labels)))
    ∙ (read_labels labels [] [] shaped (split-IsHost (c ∷ t) host) (omega arith)
        ∙ ap some (written-joined labels shaped ∙ ap lowercase (joined-split (c ∷ t))))
