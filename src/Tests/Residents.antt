-- ===== src/Tests/Residents.antt =====
-- src/bin/hopdns-hopos.rs: a resident with two peers, of which the first reads.
use hopdns.Base.{
  ℕ, ◌≤◌, true, List, [], ◌∷◌, ◌++◌, Option, none, some, ◌≡◌, refl, ◌⊎◌, arith, if◌then◌else◌,
  length, ◌==◌, ◌∙◌, ap, sym, take, append-nil, take-append, ==_iff, Bool, false,
}
use hopdns.Cache
use hopdns.Host.{Outcome, fine, fault}
use hopdns.Host.Refresh
use hopdns.Host.Serve.{drain}
use hopdns.Hopos.{Resident, start_peers}
use hopdns.Hopos.Alike.{refresh-same}
use hopdns.Hopos.Cached.{serve-asked}
use hopdns.Hopos.Mailbox.{Mailbox, post}
use hopdns.Hopos.Posted.{WentIn, AllFull, at_tries, post-Posted}
use hopdns.Hopos.Selftest.{Try, answered, front, selftest}
use hopdns.Hopos.Tested.{front-take, Reaches, selftest-answered}
use hopdns.Cache.{Ip}
use hopdns.Cnames.{lookup, lower_into, climb}
use hopdns.Table
use hopdns.Text.{
  without_dot, strip_suffix, ends_with, text_eq, split, split_pieces, lowercase, to_ascii_lowercase,
  is_empty, compare_text,
}
use hopdns.Tests.Caches.{two_clusters, two_clusters-merged}
use hopdns.Tests.Names
use hopdns.Wire.Query.Written.{Encodable}
use hopdns.Hopos.Serve.{Round, asked, told, sends, begin, serve}
use hopdns.Hopos.Started.{Chosen, watched, start_peers_lem}
use hopdns.Hopos.Tried.{EndsWith, selftest-EndsWith}
use hopdns.Hopos.Watch
use hopdns.Hopos.Watch.{Heard, refresh, watch}
use hopdns.Server.{Server, handle, limit_of}
use hopdns.Text.{Text, codes}
use hopdns.Watcher
use hopdns.Watcher.{Topic}
use hopdns.Wire.Reply.Finish.{sent}
use hopdns.Wire.Reply.Kept.{IsAnswer}
use hopdns.Tests.Hosts.{api, western}
use hopdns.Tests.Servers.{
  sample_server, east_datagram, east_query, east_read, buffer, buffer_long, web-IsLabel,
}
use hopdns.Tests.Watchers.{found, sample_hoplib}

abbrev sample_resident : Resident
sample_resident = record {
  NetError = Unit;
  Net = Unit;
  Socket = ℕ;
  Client = ℕ;
  up = fine tt;
  udp_bind = λ net port. fine port;
  Address = ℕ;
  slot_ip = λ slot. (10, 100, 0, slot);
  new_client = λ endpoint key. fine 1;
  spawn = λ task. fine tt;
}

abbrev peers : Text
peers = codes "http://HOP:9080, ftp://b"

start_peers_lem_example :
    Chosen (watched sample_resident (start_peers sample_resident peers []).0) (0 ∷ 1 ∷ 2 ∷ 3 ∷ [])
    × ((start_peers sample_resident peers []).1
        ≡ length (watched sample_resident (start_peers sample_resident peers []).0))
    × ((start_peers sample_resident peers []).1 ≤ 4)
start_peers_lem_example = start_peers_lem sample_resident peers []

-- A mailbox for two numbers.
abbrev put : ℕ → List ℕ → List ℕ × Option ℕ
put v b = if length b == 2 then (b, some v) else (b ++ v ∷ [], none)

put_sent : (v : ℕ) (b b' : List ℕ) → put v b ≡ (b', none) → b' ≡ b ++ v ∷ []
put_sent v b b' h = go (length b == 2) h
  where
    go :
        (c : Bool)
        → (if◌then◌else◌ {A = List ℕ × Option ℕ} c (b, some v) (b ++ v ∷ [], none)) ≡ (b', none)
        → b' ≡ b ++ v ∷ []
    go true e = cc
    go false e = cc

put_refused :
    (v back : ℕ) (b b' : List ℕ)
    → put v b ≡ (b', some back)
    → (back ≡ v) × (b' ≡ b) × (length b ≡ 2)
put_refused v back b b' h = go (length b == 2) refl h
  where
    go :
        (c : Bool)
        → (length b == 2) ≡ c
        → (if◌then◌else◌ {A = List ℕ × Option ℕ} c (b, some v) (b ++ v ∷ [], none))
          ≡ (b', some back)
        → (back ≡ v) × (b' ≡ b) × (length b ≡ 2)
    go true full e = (cc, cc, (==_iff (length b) 2).0 full)
    go false room e = cc

abbrev pair : Mailbox ℕ
pair = record {
  Bus = List ℕ;
  capacity = 2;
  contents = λ b. b;
  try_send = put;
  sent = put_sent;
  refused = put_refused;
}

-- The mailbox is full at the first try, and empty at the second.
post-Posted_example :
    (((post pair 3 ((λ b. []) ∷ []) (1 ∷ 2 ∷ [])).1 ≡ none)
      × WentIn pair 3
          (at_tries pair ((λ b. []) ∷ []) (1 ∷ 2 ∷ []))
          ((post pair 3 ((λ b. []) ∷ []) (1 ∷ 2 ∷ [])).0))
    ⊎ (((post pair 3 ((λ b. []) ∷ []) (1 ∷ 2 ∷ [])).1 ≡ some 3)
        × AllFull pair (at_tries pair ((λ b. []) ∷ []) (1 ∷ 2 ∷ [])))
post-Posted_example = post-Posted pair 3 ((λ b. []) ∷ []) (1 ∷ 2 ∷ [])

refresh-same_example :
    refresh sample_resident sample_hoplib api 50 none
      (Watcher.Refresh.jobs (codes "web" ∷ codes "db" ∷ []))
      found
    ≡ Refresh.refresh
        (Unit {0})
        sample_hoplib
        api
        50
        (Watcher.Refresh.jobs (codes "web" ∷ codes "db" ∷ []))
        found
refresh-same_example =
    refresh-same sample_resident sample_hoplib api 50
      (Watcher.Refresh.jobs (codes "web" ∷ codes "db" ∷ [])) found

abbrev turn : Watch.Round sample_resident sample_hoplib
turn = record {
  now = 10;
  later = 11;
  api = api;
  grant = true;
  next_heard = Heard.event (some Topic.ping);
  in_time = λ time. none;
}

-- A message, and then a query.
abbrev rounds : List (Round sample_resident)
rounds = told western [] ∷ []

serve-asked_example :
    (p : List ℕ × ℕ) × (buffer : List ℕ) × ((serve sample_resident sample_server
        (rounds ++ asked east_datagram (fine (36, 7)) ∷ [])
        (begin sample_resident)).1
      ≡ (serve sample_resident sample_server rounds (begin sample_resident)).1
        ++ sends (sent p) 7 ∷ [])
    × (length buffer ≡ 1232)
    × (handle sample_server (drain (western ∷ []) Cache.new) east_datagram buffer ≡ some p)
    × IsAnswer east_query (limit_of east_query.edns) p
serve-asked_example =
    serve-asked sample_resident sample_server rounds east_datagram 36 7 east_datagram east_query
      refl east_read (omega arith)

abbrev deaf : ℕ → Try sample_resident
deaf attempt = record { socket = fine tt; sending = λ q. fine tt; received = λ q. fault tt }

selftest-EndsWith_example :
    EndsWith sample_resident
      (codes "web.hop.local")
      deaf
      1
      120
      (selftest sample_resident (codes "web.hop.local") deaf)
selftest-EndsWith_example = selftest-EndsWith sample_resident (codes "web.hop.local") deaf

-- What a socket gets of an answer.
abbrev returned : Option (List ℕ × ℕ) → Outcome (Unit {0}) (List ℕ × ℕ)
returned none = fault tt
returned (some p) = fine (sent p, length (sent p))

-- A server of "corp", which each attempt reaches.
abbrev corp : Server
corp = record { domain = codes "corp"; cnames = Names.sample }

abbrev near : ℕ → Try sample_resident
near attempt = record {
  socket = fine tt;
  sending = λ q. fine tt;
  received = λ q. returned (handle corp two_clusters q buffer);
}

front_all : (xs : List ℕ) → front xs (length xs) ≡ xs
front_all xs =
    front-take xs (length xs) (omega arith)
    ∙ (ap (take (length xs)) (sym (append-nil xs)) ∙ take-append xs [])

near-Reaches : (k : ℕ) → Reaches sample_resident (near k) corp two_clusters buffer
near-Reaches k = record {
  bound = refl;
  sends = λ q. refl;
  back = λ q p h. (sent p, length (sent p), ap returned h, front_all (sent p));
}

-- The job as it is set, with a capital.
abbrev tested_name : Text
tested_name = codes "Web.corp"

tested-Encodable : Encodable tested_name
unfolding without_dot strip_suffix ends_with text_eq is_empty split split_pieces
tested-Encodable = (((omega arith, omega arith), ((omega arith, omega arith), tt)), omega arith)

selftest-answered_example :
    (attempt : ℕ) × (found : Ip) × (selftest sample_resident tested_name near
      ≡ answered attempt found)
    × (attempt ≤ 3)
    × (attempt ≡ 3 → found ≡ 1)
unfolding without_dot strip_suffix ends_with text_eq lowercase to_ascii_lowercase lookup lower_into
    climb is_empty Table.get compare_text
selftest-answered_example =
    selftest-answered sample_resident tested_name near corp two_clusters buffer (codes "web") 1
      (2 ∷ 3 ∷ []) tested-Encodable
      (refl, (refl, (refl, (refl, (refl, (refl, (refl, (refl, tt)))))))) refl web-IsLabel refl
      two_clusters-merged (omega arith, (omega arith, (omega arith, tt))) buffer_long 3
      (omega arith) (omega arith) (near-Reaches 3)
