-- ===== src/Server/Handle.antt =====
-- src/server.rs: `handle`, a datagram in and an answer out.
use Prim.Native.Nat.{bit_and}
use hopdns.Base.{
  ℕ, ◌+◌, ◌*◌, ◌/◌, ◌^◌, ◌≤◌, ◌<◌, min, List, ◌++◌, Option, none, some, ◌≡◌, ◌≢◌, refl, sym, ap,
  ◌∙◌, arith, length,
}
use hopdns.Cache.{Cache}
use hopdns.Wire.{Rcode, qr_bit, be16, u16_bytes, udp_max}
use hopdns.Wire.Bits.{head_flags-eq, head_flags-lt, top_bit, rcode_number-lt}
use hopdns.Wire.Query.{Query, Bad, query, bad, parse_query}
use hopdns.Wire.Query.Laws.{parse_query-bounds, parse_query_response}
use hopdns.Wire.Reply.{reserve, head_flags, finish}
use hopdns.Wire.Reply.Shape.{header, image_bytes}
use hopdns.Wire.Reply.Header.{bare-Began, bare_image}
use hopdns.Wire.Reply.Finish.{finished, sent, finish-Shows}
use hopdns.Wire.Reply.Kept.{IsAnswer, opt_count, opt_bytes}
use hopdns.Wire.Words.{be16-append}
use hopdns.Server.{Server, handle, limit_of}
use hopdns.Server.Answer.{handle_query-IsAnswer}

pub limit_of-bounds : (edns : Option ℕ) → (512 ≤ limit_of edns) × (limit_of edns ≤ 1232)
unfolding limit_of
limit_of-bounds none = omega arith
limit_of-bounds (some size) = omega arith

pub reserve-le : (edns : Option ℕ) → reserve edns ≤ 11
reserve-le none = omega arith
reserve-le (some _) = omega arith

pub handle-IsAnswer :
    (s : Server) (c : Cache) (msg out : List ℕ) (q : Query)
    → parse_query msg ≡ query q
    → q.flags < 2 ^ 16
    → 512 ≤ length out
    → (p : List ℕ × ℕ) × (handle s c msg out ≡ some p)
      × IsAnswer q (min (limit_of q.edns) (length out)) p
unfolding handle
handle-IsAnswer s c msg out q read small long =
    let (size, _, _, _) = parse_query-bounds msg q read in
    let fits : 12 + length q.question + reserve q.edns ≤ min (limit_of q.edns) (length out) =
      omega (arith, limit_of-bounds q.edns, reserve-le q.edns) in
    let (p, given, answer) = handle_query-IsAnswer s c q out small fits in
    (p, rw (read, handle) given, answer)

-- A datagram whose flag word has the QR bit gets no answer.
pub handle_response :
    (s : Server) (c : Cache) (msg out : List ℕ) (flags : ℕ)
    → be16 msg 2 ≡ some flags
    → bit_and flags qr_bit ≢ 0
    → handle s c msg out ≡ none
unfolding handle
handle_response s c msg out flags read set =
    rw (parse_query_response msg flags read set, handle) refl

pub head_flags_response :
    (fl : ℕ) (rc : Rcode) → fl < 2 ^ 16 → bit_and (head_flags fl rc) qr_bit ≢ 0
head_flags_response fl rc small =
    let bits = top_bit (head_flags fl rc) (head_flags-lt fl rc small) in
    let high : head_flags fl rc / 32768 * 32768 ≢ 0 =
      omega (arith, head_flags-eq fl rc small, rcode_number-lt rc) in
    λ h. high (sym bits ∙ h)

-- A message that is an answer to a query with a flag word below 2^16 gets no answer when it comes
-- in as a datagram, at any server with any cache.
pub handle_answer :
    (s : Server) (c : Cache) (q : Query) (limit : ℕ) (p : List ℕ × ℕ) (out : List ℕ)
    → q.flags < 2 ^ 16
    → IsAnswer q limit p
    → handle s c (sent p) out ≡ none
handle_answer s c q limit p out small a =
    let fl = head_flags q.flags a.rcode in
    let behind =
      u16_bytes 1
      ++ (u16_bytes a.an
          ++ (u16_bytes a.ns
              ++ (u16_bytes (opt_count q.edns)
                  ++ (q.question ++ (a.records ++ opt_bytes q.edns))))) in
    let read : be16 (sent p) 2 ≡ some fl =
      ap (λ (b : List ℕ). be16 b 2) a.bytes_are
      ∙ be16-append (u16_bytes q.id) behind fl 2 refl (head_flags-lt q.flags a.rcode small) in
    handle_response s c (sent p) out fl read (head_flags_response q.flags a.rcode small)

-- For a datagram that `parse_query` refuses with an id, flags and a code, and a buffer of at least
-- 12 bytes, `handle` gives a header with that id, the flags of an answer with that code, and all
-- counts zero.
pub handle_bad :
    (s : Server) (c : Cache) (msg out : List ℕ) (id flags : ℕ) (rc : Rcode)
    → parse_query msg ≡ bad (Bad.reply id flags rc)
    → 12 ≤ length out
    → (p : List ℕ × ℕ) × (handle s c msg out ≡ some p)
      × (sent p ≡ header id (head_flags flags rc) 0 0 0 0)
unfolding handle
handle_bad s c msg out id flags rc read long =
    let b = bare-Began out id flags rc udp_max (omega arith) in
    let (bytes, short) = finish-Shows b.reply (bare_image id (head_flags flags rc)) b.shows in
    let plain : sent (finish b.reply) ≡ image_bytes (bare_image id (head_flags flags rc)) =
      bytes
      ∙ ap (λ (e : Option ℕ). image_bytes (finished e (bare_image id (head_flags flags rc))))
          b.edns_is in
    (finish b.reply, rw (read, handle) (rw b.began refl), plain)
