-- ===== src/Server/Addresses.antt =====
-- src/server.rs: the whole answer to a question that addresses are written for.
use hopdns.Base.{
  ℕ, ◌+◌, ◌-◌, ◌^◌, ◌≤◌, ◌<◌, min, true, false, List, [], ◌∷◌, Option, none, some, ◌≡◌, refl, ap,
  ◌∙◌, arith, ◌==◌, length, take, length-take,
}
use hopdns.Cache.{Cache, Ip}
use hopdns.Cnames
use hopdns.Errors.{Result, ok, err}
use hopdns.Text.{Text}
use hopdns.Wire.{class_in, serv_fail}
use hopdns.Wire.Names.{name_text}
use hopdns.Wire.Query.{Query, query, parse_query}
use hopdns.Wire.Query.Laws.{parse_query-bounds}
use hopdns.Wire.Reply.{Reply, reserve, room, answers, start, finish, set_rcode}
use hopdns.Wire.Reply.Shape.{Image, Shows, image_bytes, with_answer}
use hopdns.Wire.Reply.Header.{question_image, start-Began}
use hopdns.Wire.Reply.Finish.{finished, sent, finish-Shows}
use hopdns.Wire.Reply.Records.{a_record}
use hopdns.Server.{
  Server, ttl, handle, handle_query, complete, answer, answer_name, service, look, write_lookup,
  limit_of,
}
use hopdns.Server.Handle.{limit_of-bounds, reserve-le}
use hopdns.Server.Merge.{Wrote, with_addresses}
use hopdns.Server.Zone.{in_zone}

with_addresses-an :
    (ips : List Ip) (m : Image)
    → m.an + length ips < 2 ^ 16
    → (with_addresses ips m).an ≡ m.an + length ips
unfolding with_addresses
with_addresses-an [] m h = omega arith
with_addresses-an (ip ∷ ips) m h =
    omega (arith, with_addresses-an ips (with_answer (a_record ip ttl) m) (omega arith))

-- Addresses were written: nothing is added.
service-written :
    (s : Server) (c : Cache) (name : Text) (r after : Reply)
    → write_lookup c (look c name s.domain) r ≡ after
    → (answers after == 0) ≡ false
    → service s c name 1 r ≡ (after, ok tt)
unfolding service
service-written s c name r after written some_written = rw (written, service) (rw some_written refl)

-- An A question of class IN for a name of the domain without a CNAME.
pub record AsksName (s : Server) (q : Query) (name : Text) : Type 0 where
  pub named : name_text q.qname ≡ some name
  pub class_is : q.qclass ≡ 1
  pub type_is : q.qtype ≡ 1
  pub no_cname : Cnames.lookup s.cnames name ≡ none
  pub inside : in_zone name s.domain ≡ true

answer-written :
    (s : Server) (c : Cache) (q : Query) (name : Text) (r after : Reply)
    → AsksName s q name
    → write_lookup c (look c name s.domain) r ≡ after
    → (answers after == 0) ≡ false
    → answer s c q r ≡ (after, ok tt)
unfolding answer answer_name
answer-written s c q name r after asks written some_written =
    let in_class : (q.qclass == class_in) ≡ true = ground (arith, asks.class_is) in
    rw (asks.named, answer)
      (rw (in_class, answer_name)
        (rw asks.no_cname (
          rw asks.inside
            (rw asks.type_is (service-written s c name r after written some_written)))))

complete-answered :
    (s : Server) (c : Cache) (q : Query) (r after : Reply)
    → answer s c q r ≡ (after, ok tt)
    → complete s c q r ≡ finish after
unfolding complete
complete-answered s c q r after e =
    ap
      (λ (p : Reply × Result (Unit {0})).
        finish (elim (p.1) as (λ _. Reply) [ ok _ ↦ p.0 | err _ ↦ set_rcode serv_fail (p.0) ]))
      e

handle-started :
    (s : Server) (c : Cache) (msg out : List ℕ) (q : Query) (r : Reply)
    → parse_query msg ≡ query q
    → start out q (limit_of q.edns) ≡ ok r
    → handle s c msg out ≡ some (complete s c q r)
unfolding handle handle_query
handle-started s c msg out q r read began = rw (read, handle) (rw (began, handle_query) refl)

-- The room that a question leaves for addresses.
abbrev pub free_room : Query → ℕ → ℕ
free_room q limit = limit - (12 + length q.question + reserve q.edns)

-- `fit` says how many of the addresses are written into so much room.
pub handle-addresses :
    (s : Server) (c : Cache) (msg out : List ℕ) (q : Query) (name : Text) (ips : List Ip)
    (fit : ℕ → ℕ)
    → parse_query msg ≡ query q
    → 512 ≤ length out
    → AsksName s q name
    → ((r : Reply) (m : Image)
        → Shows r m
        → Wrote r
            (write_lookup c (look c name s.domain) r)
            (with_addresses (take (fit (room r)) ips) m))
    → ((n : ℕ) → fit n ≤ n)
    → ((n : ℕ) → 16 ≤ n → 1 ≤ fit n)
    → 1 ≤ length ips
    → (p : List ℕ × ℕ) × (handle s c msg out ≡ some p)
      × (sent p
          ≡ image_bytes (
              finished q.edns (
                with_addresses
                  (take (fit (free_room q (min (limit_of q.edns) (length out)))) ips)
                  (question_image q))))
unfolding answers room
handle-addresses s c msg out q name ips fit read long asks writes few many some_ip =
    let limit : ℕ = min (limit_of q.edns) (length out) in
    let (size, _, _, _) = parse_query-bounds msg q read in
    let fits : 12 + length q.question + reserve q.edns ≤ limit =
      omega (arith, limit_of-bounds q.edns, reserve-le q.edns) in
    let b = start-Began out q (limit_of q.edns) fits in
    let r : Reply = b.reply in
    let w = writes r (question_image q) b.shows in
    let kept : reserve r.edns ≡ reserve q.edns = ap reserve b.edns_is in
    let free : room r ≡ free_room q limit = omega (arith, b.limit_is, b.shows.len_is, kept) in
    let written : List Ip = take (fit (room r)) ips in
    let after : Reply = write_lookup c (look c name s.domain) r in
    let counted : after.an ≡ length written = omega (
      arith,
      w.shows.an_is,
      with_addresses-an written (question_image q) (
          omega
            (arith, length-take (fit (room r)) ips, few (room r), free, limit_of-bounds q.edns)),
    ) in
    let room_left : 16 ≤ room r =
      omega (arith, free, size, limit_of-bounds q.edns, reserve-le q.edns) in
    let some_written : (answers after == 0) ≡ false =
      ground (arith, counted, length-take (fit (room r)) ips, many (room r) room_left) in
    let done = answer-written s c q name r after asks refl some_written in
    let (bytes, _) = finish-Shows after (with_addresses written (question_image q)) w.shows in
    let edns : after.edns ≡ q.edns = w.edns_kept ∙ b.edns_is in
    (
      finish after,
      handle-started s c msg out q r read b.began ∙ ap some (complete-answered s c q r after done),
      bytes
          ∙ (ap
                (λ (e : Option ℕ).
                  image_bytes (finished e (with_addresses written (question_image q))))
                edns
              ∙ ap
                  (λ (n : ℕ).
                    image_bytes
                      (finished q.edns (with_addresses (take (fit n) ips) (question_image q))))
                  free),
    )
