-- ===== src/Hopos/Tried.antt =====
-- src/bin/hopdns-hopos.rs: how the self-test ends, and what it asked by then.
use hopdns.Base.{
  ℕ, length, length-replicate, ◌∙◌, zero, suc, ◌+◌, ◌≤◌, ◌<◌, List, Option, none, some, ◌≡◌, refl,
  arith, inl, inr, replicate, Option-cases, ◌⊎◌, lt_or_le, subst,
}
use hopdns.Cache.{Ip}
use hopdns.Errors.{Error, Result, ok, err}
use hopdns.Hopos.{Resident}
use hopdns.Hopos.Selftest.{
  Ended, not_a_name, answered, no_answer, front, id_of, Try, asked, test_from, selftest,
}
use hopdns.Text.{Text}
use hopdns.Wire.{rtype_a}
use hopdns.Wire.Query.{encode_query}
use hopdns.Wire.Query.Ends.{encode_query-inside}
use hopdns.Wire.Query.Written.{Encodable, Wrote, encode_query-Wrote}

Result-cases : {A : Type 0} (r : Result A) → ((a : A) × (r ≡ ok a)) ⊎ ((e : Error) × (r ≡ err e))
Result-cases (ok a) = inl (a, refl)
Result-cases (err e) = inr (e, refl)

module _ (sys : Resident) (name : Text) (tries : ℕ → Try sys) where
  -- An attempt: the buffer it wrote its query over, and what came of it.
  pub record Attempt (attempt : ℕ) (found : Option Ip) : Type 0 where
    pub before : List ℕ
    pub sized : length before ≡ 512
    pub buffer : List ℕ
    pub size : ℕ
    pub encoded : encode_query (id_of attempt) name rtype_a none before ≡ ok (buffer, size)
    pub found_is : asked sys (tries attempt) (front buffer size) ≡ found

  tried :
      (attempt : ℕ) (before buffer : List ℕ) (size : ℕ) (found : Option Ip)
      → length before ≡ 512
      → encode_query (id_of attempt) name rtype_a none before ≡ ok (buffer, size)
      → asked sys (tries attempt) (front buffer size) ≡ found
      → Attempt attempt found
  tried attempt before buffer size found sized encoded is = record {
    before = before;
    sized = sized;
    buffer = buffer;
    size = size;
    encoded = encoded;
    found_is = is;
  }

  -- What is known when it ends, of so many attempts from this one on.
  unfoldable pub EndsWith : ℕ → ℕ → Ended → Type 0
  EndsWith from left not_a_name = Encodable name → ⊥
  EndsWith from left (answered attempt ip) =
      (from ≤ attempt)
      × (attempt < from + left)
      × Attempt attempt (some ip)
      × ((k : ℕ) → from ≤ k → k < attempt → Attempt k none)
  EndsWith from left no_answer = (k : ℕ) → from ≤ k → k < from + left → Attempt k none

  -- An attempt that found nothing, before those that follow.
  earlier :
      (from k : ℕ) → Attempt from none → (from + 1 ≤ k → Attempt k none) → from ≤ k → Attempt k none
  earlier from k first rest le = elim (lt_or_le from k) [
    | inl lt ↦ rest (omega arith)
    | inr ge ↦ let same : from ≡ k = omega arith in subst (λ (n : ℕ). Attempt n none) same first
  ]

  next-EndsWith :
      (from left : ℕ) (e : Ended)
      → Attempt from none
      → EndsWith (from + 1) left e
      → EndsWith from (suc left) e
  unfolding EndsWith
  next-EndsWith from left not_a_name first h = h
  next-EndsWith from left (answered attempt ip) first (low, high, found, rest) =
      (omega arith, omega arith, found, λ k le lt. earlier from k first (λ past. rest k past lt) le)
  next-EndsWith from left no_answer first h =
      λ k le lt. earlier from k first (λ past. h k past (omega arith)) le

  test_from-EndsWith :
      (left from : ℕ) (q : List ℕ)
      → length q ≡ 512
      → EndsWith from left (test_from sys name tries left from q)
  unfolding test_from EndsWith Wrote
  test_from-EndsWith zero from q sized = λ k le lt. absurd (omega arith)
  test_from-EndsWith (suc left) from q sized =
      elim (Result-cases (encode_query (id_of from) name rtype_a none q)) [
        | inr (e, h) ↦
            rw (h, test_from)
              (λ good.
                let (out, written, _) =
                  encode_query-Wrote (id_of from) rtype_a name q (good.0) (good.1)
                    (omega (arith, sized)) in
                cc)
        | inl ((q', n), h) ↦
            let (same, _) = encode_query-inside (id_of from) rtype_a name none q (q', n) h in
            elim (Option-cases (asked sys (tries from) (front q' n))) [
              | inr (ip, found) ↦
                  rw (h, test_from)
                    (rw found (
                      omega arith,
                      omega arith,
                      tried from q q' n (some ip) sized h found,
                      λ k le lt. absurd (omega arith),
                    ))
              | inl missing ↦
                  rw (h, test_from)
                    (rw missing (
                      next-EndsWith from left (test_from sys name tries left (from + 1) q')
                        (tried from q q' n none sized h missing)
                        (test_from-EndsWith left (from + 1) q' (same ∙ sized))))
            ]
      ]

  -- `selftest` ends in one of three ways: with the address that one of the attempts 1 to 120
  -- found, where those before it found none; with none found by any of the 120; or because the
  -- name cannot be encoded, which is that a label of it has no byte or more than 63, or that it
  -- takes more than 255 bytes on the wire.
  pub selftest-EndsWith : EndsWith 1 120 (selftest sys name tries)
  unfolding selftest
  selftest-EndsWith = test_from-EndsWith 120 1 (replicate 512 0) (length-replicate {A = ℕ} 512 0)
