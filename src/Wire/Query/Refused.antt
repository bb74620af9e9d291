-- ===== src/Wire/Query/Refused.antt =====
-- `parse_query` on what it refuses with an answer: the flag word is that of the datagram.
use Prim.Native.Nat.{bit_and}
use hopdns.Base.{
  ℕ, zero, suc, ◌+◌, ◌*◌, ◌/◌, ◌^◌, ◌<◌, Bool, true, false, not, ◌||◌, List, [], ◌∷◌, Option, none,
  some, ◌≡◌, refl, arith, ltb, ◌==◌, if◌then◌else◌, length, slice, get_elem?, inl, inr, All,
  Option-cases, ◌>>=◌,
}
use hopdns.Wire.{qr_bit, header_len, be16}
use hopdns.Wire.Names.{skip_plain_name}
use hopdns.Wire.Query.{
  Bad, reply, Parsed, query, bad, or_bad, parse_question, parse_counts, parse_query,
}

abbrev pub IsByte : ℕ → Type 0
IsByte b = b < 256

get_elem?-IsByte : (bs : List ℕ) (at b : ℕ) → All IsByte bs → get_elem? bs at ≡ some b → IsByte b
get_elem?-IsByte [] at b all h = absurd cc
get_elem?-IsByte (x ∷ bs) zero b all h = let same : x ≡ b = cc in omega (arith, all.0, same)
get_elem?-IsByte (x ∷ bs) (suc at) b all h = get_elem?-IsByte bs at b (all.1) h

pub be16-lt : (bs : List ℕ) (at n : ℕ) → All IsByte bs → be16 bs at ≡ some n → n < 2 ^ 16
unfolding be16
be16-lt bs at n all h = go (get_elem? bs at) (get_elem? bs (at + 1)) refl refl h
  where
    go :
        (hi lo : Option ℕ)
        → get_elem? bs at ≡ hi
        → get_elem? bs (at + 1) ≡ lo
        → (hi >>= λ a. lo >>= λ b. some (a * 256 + b)) ≡ some n
        → n < 2 ^ 16
    go none lo first second e = absurd cc
    go (some a) none first second e = absurd cc
    go (some a) (some b) first second e =
        let same : a * 256 + b ≡ n = cc in
        omega (
          arith,
          same,
          get_elem?-IsByte bs at a all first,
          get_elem?-IsByte bs (at + 1) b all second,
        )

-- An answer to what is refused is one to these flags.
abbrev pub Keeps : ℕ → Parsed → Type 0
Keeps flags (query q) = Unit
Keeps flags (bad Bad.drop) = Unit
Keeps flags (bad (reply id fl rc)) = fl ≡ flags

or_bad-Keeps :
    {A : Type 0} (flags : ℕ) (o : Option A) (b : Bad) (f : A → Parsed)
    → Keeps flags (bad b)
    → ((a : A) → Keeps flags (f a))
    → Keeps flags (or_bad o b f)
or_bad-Keeps flags none b f k later = k
or_bad-Keeps flags (some a) b f k later = later a

if-Keeps :
    (flags : ℕ) (c : Bool) (b : Bad) (p : Parsed)
    → Keeps flags (bad b)
    → Keeps flags p
    → Keeps flags (if c then bad b else p)
if-Keeps flags true b p k later = k
if-Keeps flags false b p k later = later

module _ (msg : List ℕ) (id flags : ℕ) where
  question-Keeps : (rrs : ℕ) → Keeps flags (parse_question msg id flags rrs)
  unfolding parse_question
  question-Keeps rrs = or_bad-Keeps flags (skip_plain_name msg header_len) _ _ refl λ name_end.
      or_bad-Keeps flags (be16 msg name_end) _ _ refl λ qtype.
        or_bad-Keeps flags (be16 msg (name_end + 2)) _ _ refl λ qclass.
          or_bad-Keeps flags (slice msg header_len (name_end + 4)) _ _ refl
            λ question. or_bad-Keeps flags (slice msg header_len name_end) _ _ refl λ qname. tt

  counts-Keeps : Keeps flags (parse_counts msg id flags)
  unfolding parse_counts
  counts-Keeps = if-Keeps flags (not (bit_and (flags / 2 ^ 11) 0xF == 0)) _ _ refl (
      or_bad-Keeps flags (be16 msg 4) _ _ refl λ qd. or_bad-Keeps flags (be16 msg 6) _ _ refl λ an.
        or_bad-Keeps flags (be16 msg 8) _ _ refl λ ns.
          or_bad-Keeps flags (be16 msg 10) _ _ refl
            λ ar. if-Keeps flags (not (qd == 1)) _ _ refl (question-Keeps (an + ns + ar)))

pub parse_query-Keeps :
    (msg : List ℕ) (flags : ℕ) → be16 msg 2 ≡ some flags → Keeps flags (parse_query msg)
unfolding parse_query
parse_query-Keeps msg flags read =
    rw (read, parse_query)
      (or_bad-Keeps flags (be16 msg 0) _ _ tt λ id.
        if-Keeps flags (ltb (length msg) header_len || not (bit_and flags qr_bit == 0)) _ _ tt
          (counts-Keeps msg id flags))

-- Without a flag word nothing is answered.
pub parse_query-short : (msg : List ℕ) → be16 msg 2 ≡ none → parse_query msg ≡ bad Bad.drop
unfolding parse_query
parse_query-short msg none_read = elim (Option-cases (be16 msg 0)) [
  | inl first ↦ rw (first, parse_query) refl
  | inr (id, first) ↦ rw (first, parse_query) (rw none_read refl)
]
