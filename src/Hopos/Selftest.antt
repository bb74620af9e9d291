-- ===== src/Hopos/Selftest.antt =====
-- src/bin/hopdns-hopos.rs: the self-test, which asks the own server until there is an address.
use hopdns.Base.{ℕ, zero, suc, ◌+◌, ◌%◌, List, [], ◌∷◌, Option, none, some, replicate, slice}
use hopdns.Cache.{Ip}
use hopdns.Errors.{ok, err}
use hopdns.Host.{Outcome, fine, fault}
use hopdns.Hopos.{Resident}
use hopdns.Text.{Text}
use hopdns.Wire.{rtype_a}
use hopdns.Wire.Decode.{decode, a_records}
use hopdns.Wire.Query.{encode_query}

abbrev pub selftest_tries : ℕ
selftest_tries = 120

-- How it ends: not a name, an address at a try, or no address after all tries.
pub data Ended : Type 0 where
  not_a_name : Ended
  answered : ℕ → Ip → Ended
  no_answer : Ended

-- `slice.get(..n).unwrap_or_default()`.
abbrev pub front : List ℕ → ℕ → List ℕ
front xs n = elim (slice xs 0 n) [ some ys ↦ ys | none ↦ [] ]

-- The id of a try: `u16::try_from(attempt % 0xFFFF)`.
abbrev pub id_of : ℕ → ℕ
id_of attempt = attempt % 0xFFFF

module _ (sys : Resident) where
  -- A try as the network decides it: the socket, the sending, and what the buffer holds and how much of
  -- it was received.
  pub record Try : Type 0 where
    pub socket : Outcome sys.NetError (Unit {0})
    pub sending : List ℕ → Outcome sys.NetError (Unit {0})
    pub received : List ℕ → Outcome sys.NetError (List ℕ × ℕ)

  -- The first address of the answer that came back to this query.
  unfoldable pub first_address : List ℕ → Option Ip
  first_address msg = elim (decode msg) [
    | err _ ↦ none
    | ok m ↦ elim (a_records m) [ [] ↦ none | ip ∷ _ ↦ some ip ]
  ]

  unfoldable pub asked : Try → List ℕ → Option Ip
  asked t q = elim (t.socket) [
    | fault _ ↦ none
    | fine _ ↦ elim (t.sending q) [
      | fault _ ↦ none
      | fine _ ↦ elim (t.received q) [
        | fault _ ↦ none
        | fine (buf, len) ↦ first_address (front buf len)
      ]
    ]
  ]

  -- The loop from this attempt on, with so many left; `tries` says what each attempt meets.
  unfoldable pub test_from : Text → (ℕ → Try) → ℕ → ℕ → List ℕ → Ended
  test_from name tries zero attempt q = no_answer
  test_from name tries (suc left) attempt q =
      elim (encode_query (id_of attempt) name rtype_a none q) [
        | err _ ↦ not_a_name
        | ok (q', n) ↦ elim (asked (tries attempt) (front q' n)) [
          | some ip ↦ answered attempt ip
          | none ↦ test_from name tries left (attempt + 1) q'
        ]
      ]

  unfoldable pub selftest : Text → (ℕ → Try) → Ended
  selftest name tries = test_from name tries selftest_tries 1 (replicate 512 0)
