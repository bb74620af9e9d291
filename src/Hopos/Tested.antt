-- ===== src/Hopos/Tested.antt =====
-- src/bin/hopdns-hopos.rs: the self-test against the own server.
use hopdns.Base.{
  ℕ, zero, suc, ◌-◌, ◌/◌, ◌≤◌, ◌<◌, ◌^◌, min, List, [], ◌∷◌, ◌++◌, Option, none, some, ◌≡◌, refl,
  sym, ap, ◌∙◌, arith, inl, inr, lt_or_le, le→leb, subst, All, All-take, length, length-take, take,
  slice,
}
use hopdns.Cache.{Cache, Ip, get_merged}
use hopdns.Cnames
use hopdns.Errors.{ok}
use hopdns.Host.{fine}
use hopdns.Hopos.{Resident}
use hopdns.Hopos.Selftest.{
  Ended, not_a_name, answered, no_answer, front, id_of, Try, first_address, asked, selftest,
}
use hopdns.Hopos.Tried.{Attempt, EndsWith, selftest-EndsWith}
use hopdns.Server.{Server, handle, limit_of}
use hopdns.Server.Addresses.{free_room}
use hopdns.Server.Asked.{decode-answer}
use hopdns.Server.Handle.{limit_of-bounds, reserve-le}
use hopdns.Server.Look.{IsLabel}
use hopdns.Server.Merge.{with_addresses}
use hopdns.Server.Merged.{fitting_merged, handle-merged}
use hopdns.Text.{Text, without_dot, lowercase}
use hopdns.Wire.{rtype_a}
use hopdns.Wire.Decode.{Message, a_records, decode}
use hopdns.Wire.Decode.Addresses.{Fits}
use hopdns.Wire.Names.Read.{HostName, labels_of-IsHost, name_text-labels_of}
use hopdns.Wire.Names.Wires.{labels_of}
use hopdns.Wire.Query.{query, parse_query}
use hopdns.Wire.Query.Built.{encode_query-datagram}
use hopdns.Wire.Query.Ends.{encode_query-inside}
use hopdns.Wire.Query.Laws.{parse_query-bounds}
use hopdns.Wire.Query.RoundTrip
use hopdns.Wire.Query.RoundTrip.{parse_query-datagram}
use hopdns.Wire.Query.Written.{Encodable}
use hopdns.Wire.Reply.Finish.{finished, sent}
use hopdns.Wire.Reply.Header.{question_image}
use hopdns.Wire.Reply.Shape.{image_bytes}

pub front-take : (xs : List ℕ) (n : ℕ) → n ≤ length xs → front xs n ≡ take n xs
front-take xs n h =
    let all : n - 0 ≡ n = omega arith in
    let low = le→leb 0 n (omega arith) in
    let high = le→leb n (length xs) h in
    let whole : slice xs 0 n ≡ some (take n xs) = rw (low, high, all) refl in
    ap (λ (o : Option (List ℕ)). elim o as (λ _. List ℕ) [ some ys ↦ ys | none ↦ [] ]) whole

-- An attempt whose query the server gets, and whose answer comes back.
pub record Reaches (sys : Resident) (t : Try sys) (s : Server) (c : Cache) (out : List ℕ)
    : Type 0 where
  pub bound : t.socket ≡ fine tt
  pub sends : (q : List ℕ) → t.sending q ≡ fine tt
  pub back :
      (q : List ℕ) (p : List ℕ × ℕ)
      → handle s c q out ≡ some p
      → (buf : List ℕ) × (n : ℕ) × (t.received q ≡ fine (buf, n)) × (front buf n ≡ sent p)

take_first :
    {A : Type 0} (n : ℕ) (x : A) (xs : List A) → 1 ≤ n → (ys : List A) × (take n (x ∷ xs) ≡ x ∷ ys)
take_first zero x xs h = absurd (omega arith)
take_first (suc n) x xs h = (take n xs, refl)

first_address-decode :
    (sys : Resident) (msg : List ℕ) (m : Message) (ip : Ip) (ips : List Ip)
    → decode msg ≡ ok m
    → a_records m ≡ ip ∷ ips
    → first_address sys msg ≡ some ip
unfolding first_address
first_address-decode sys msg m ip ips decoded has = rw (decoded, first_address) (rw has refl)

asked-Reaches :
    (sys : Resident) (t : Try sys) (s : Server) (c : Cache) (out msg : List ℕ) (p : List ℕ × ℕ)
    → Reaches sys t s c out
    → handle s c msg out ≡ some p
    → asked sys t msg ≡ first_address sys (sent p)
unfolding asked
asked-Reaches sys t s c out msg p r answer =
    let (buf, n, received, bytes) = r.back msg p answer in
    rw (r.bound, asked) (rw (r.sends msg) (rw received (ap (first_address sys) bytes)))

module _ (sys : Resident) (name : Text) (tries : ℕ → Try sys) (s : Server) (c : Cache)
    (out : List ℕ) (job : Text) (ip : Ip) (ips : List Ip) (good : Encodable name)
    (host : HostName (without_dot name))
    (asks : lowercase (without_dot name) ≡ job ++ b'.' ∷ s.domain) (label : IsLabel job)
    (unaliased : Cnames.lookup s.cnames (job ++ b'.' ∷ s.domain) ≡ none)
    (known : get_merged c job ≡ ip ∷ ips) (wide : All Fits (ip ∷ ips))
    (long : 512 ≤ length out) where
  abbrev labels : List Text
  labels = labels_of (without_dot name)

  -- What is sent at an attempt, read as a query.
  read_query :
      (k : ℕ) (found : Option Ip) (a : Attempt sys name tries k found)
      → parse_query (front a.buffer a.size) ≡ query (RoundTrip.asked (id_of k) rtype_a labels none)
  read_query k found a =
      let p : List ℕ × ℕ = (a.buffer, a.size) in
      let (_, inside) = encode_query-inside (id_of k) rtype_a name none a.before p a.encoded in
      let (built, shaped, short) =
        encode_query-datagram (id_of k) rtype_a name none a.before p a.encoded in
      ap parse_query (front-take a.buffer a.size inside ∙ built)
      ∙ parse_query-datagram (id_of k) rtype_a labels none (omega arith) (omega arith) tt shaped
          short

  -- An attempt that reaches the server finds the first address.
  reached :
      (k : ℕ) (found : Option Ip)
      → Reaches sys (tries k) s c out
      → Attempt sys name tries k found
      → found ≡ some ip
  reached k found r a =
      let q = RoundTrip.asked (id_of k) rtype_a labels none in
      let limit = min (limit_of none) (length out) in
      let read = read_query k found a in
      let named = name_text-labels_of (without_dot name) host (good.0) (good.1) ∙ ap some asks in
      let some_ip : 1 ≤ length (get_merged c job) = omega (arith, ap length known) in
      let (p, answer, bytes) =
        handle-merged s c (front a.buffer a.size) out q job read long label named refl refl
          unaliased some_ip in
      let given = fitting_merged q limit (ip ∷ ips) in
      let message : sent p ≡ image_bytes (finished none (with_addresses given (question_image q))) =
        bytes
        ∙ ap
            (λ (xs : List Ip).
              image_bytes
                (finished none (with_addresses (fitting_merged q limit xs) (question_image q))))
            known in
      let fit = min (free_room q limit / 16) 75 in
      let few : length given < 2 ^ 16 = omega (arith, length-take fit (ip ∷ ips)) in
      let (m, decoded, _, same) =
        decode-answer labels (id_of k) none given (sent p) (good.0)
          (labels_of-IsHost (without_dot name) host) (good.1) (omega arith) few
          (All-take Fits fit (ip ∷ ips) wide) message in
      let (size, _, _, _) = parse_query-bounds (front a.buffer a.size) q read in
      let some_fit : 1 ≤ fit = omega (arith, size, limit_of-bounds none, reserve-le none) in
      let (ys, first) = take_first fit ip ips some_fit in
      sym a.found_is
      ∙ (asked-Reaches sys (tries k) s c out (front a.buffer a.size) p r answer
          ∙ first_address-decode sys (sent p) m ip ys decoded (same ∙ first))

  -- For a name, of host bytes and dots, whose labels have 1 to 63 bytes and at most 255 on the
  -- wire, that is in small letters and without its last dot that of a job without a dot and the
  -- domain of a server, which has no CNAME for it; a cache in which some cluster has an address
  -- for the job, all of 32 bits; an answer buffer of 512 bytes or more; and a try of the 120 whose
  -- query that server gets and whose answer comes back: the self-test ends with an address, at
  -- that try or before it, and at that try with the first address of the clusters put together.
  pub selftest-answered :
      (k : ℕ)
      → 1 ≤ k
      → k ≤ 120
      → Reaches sys (tries k) s c out
      → (attempt : ℕ) × (found : Ip) × (selftest sys name tries ≡ answered attempt found)
        × (attempt ≤ k)
        × (attempt ≡ k → found ≡ ip)
  unfolding EndsWith
  selftest-answered k low high r =
      go (selftest sys name tries) refl (selftest-EndsWith sys name tries)
    where
      go :
          (e : Ended)
          → selftest sys name tries ≡ e
          → EndsWith sys name tries 1 120 e
          → (attempt : ℕ) × (found : Ip) × (selftest sys name tries ≡ answered attempt found)
            × (attempt ≤ k)
            × (attempt ≡ k → found ≡ ip)
      go not_a_name same h = absurd (h good)
      go no_answer same h = let missing = reached k none r (h k low (omega arith)) in absurd cc
      go (answered attempt found) same (from, to, a, earlier) = elim (lt_or_le k attempt) [
        | inl late ↦ let missing = reached k none r (earlier k low late) in absurd cc
        | inr soon ↦ (
          attempt,
          found,
          same,
          soon,
          λ here.
              let there : Attempt sys name tries k (some found) =
                subst (λ (n : ℕ). Attempt sys name tries n (some found)) here a in
              let e : some found ≡ some ip = reached k (some found) r there in cc,
        )
      ]
