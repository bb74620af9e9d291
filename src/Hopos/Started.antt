-- ===== src/Hopos/Started.antt =====
-- src/bin/hopdns-hopos.rs: the port is one, and the started peers have an inbox each, at most four.
use hopdns.Base.{
  ℕ, ◌+◌, ◌≤◌, ◌<◌, Bool, true, false, List, [], ◌∷◌, ◌++◌, Option, none, some, ◌≡◌, refl, sym, ap,
  ◌⊎◌, ◌∙◌, subst, arith, if◌then◌else◌, length, inl, inr, Option-cases,
}
use hopdns.Config.Peers.{Peer, parse_u16, parse_peer, with_host_alias, peer_list}
use hopdns.Errors.{Result, ok, err}
use hopdns.Host.{Outcome, fine, fault}
use hopdns.Hopos.{
  port_of, Task, Resident, Tasks, spawn_both, start_client, start_one, start_each, start_peers,
  inboxes, hop_alias, hop_slot,
}
use hopdns.Text.{Text}

parse_u16-lt : (t : Text) (n : ℕ) → parse_u16 t ≡ some n → n < 65536
unfolding parse_u16
parse_u16-lt t n h = ground (arith, h)

-- The port is one of UDP, and not 0.
port_of-bounds : (env : Option Text) → (0 < port_of env) × (port_of env < 65536)
unfolding port_of
port_of-bounds none = omega arith
port_of-bounds (some text) = elim (Option-cases (parse_u16 text)) [
  | inl bad ↦ rw (bad, port_of) (omega arith)
  | inr (p, read) ↦ let small = parse_u16-lt text p read in rw (read, port_of) (ground arith)
]

-- Some of the numbers of a list, in its order.
pub data Chosen : List ℕ → List ℕ → Type 0 where
  stop : (ys : List ℕ) → Chosen [] ys
  skip : {xs ys : List ℕ} (y : ℕ) → Chosen xs ys → Chosen xs (y ∷ ys)
  keep : {xs ys : List ℕ} (x : ℕ) → Chosen xs ys → Chosen (x ∷ xs) (x ∷ ys)

Chosen-length : {xs ys : List ℕ} → Chosen xs ys → length xs ≤ length ys
Chosen-length (Chosen.stop ys) = omega arith
Chosen-length (Chosen.skip y c) = omega (arith, Chosen-length c)
Chosen-length (Chosen.keep x c) = omega (arith, Chosen-length c)

module _ (sys : Resident) where
  -- The inboxes of the watchers among the tasks.
  abbrev pub watched : Tasks sys → List ℕ
  watched [] = []
  watched (Task.watches inbox endpoint client ∷ tasks) = inbox ∷ watched tasks
  watched (Task.reads inbox client ∷ tasks) = watched tasks
  watched (Task.tests name port ∷ tasks) = watched tasks

  watched-append : (xs ys : Tasks sys) → watched (xs ++ ys) ≡ watched xs ++ watched ys
  watched-append [] ys = refl
  watched-append (Task.watches inbox endpoint client ∷ xs) ys =
      ap (◌∷◌ inbox) (watched-append xs ys)
  watched-append (Task.reads inbox client ∷ xs) ys = watched-append xs ys
  watched-append (Task.tests name port ∷ xs) ys = watched-append xs ys

  -- What one peer starts: a watcher on its inbox, or none.
  abbrev One : ℕ → Tasks sys × Bool → Type 0
  One inbox p =
      ((p.1 ≡ true) × (watched (p.0) ≡ inbox ∷ [])) ⊎ ((p.1 ≡ false) × (watched (p.0) ≡ []))

  spawn_both-One :
      (inbox : ℕ) (endpoint : Text) (client : sys.Client)
      → One inbox (spawn_both sys (Task.reads inbox client) (Task.watches inbox endpoint client))
  unfolding spawn_both
  spawn_both-One inbox endpoint client = go (sys.spawn first) (sys.spawn second)
    where
      first : Task sys.Client
      first = Task.reads inbox client

      second : Task sys.Client
      second = Task.watches inbox endpoint client

      go :
          (a b : Outcome sys.NetError (Unit {0}))
          → One inbox (elim a as (λ _. Tasks sys × Bool) [
            | fault _ ↦ ([], false)
            | fine _ ↦ elim b [
              | fault _ ↦ (first ∷ [], false)
              | fine _ ↦ (first ∷ second ∷ [], true)
            ]
          ])
      go (fault _) b = inr (refl, refl)
      go (fine _) (fault _) = inr (refl, refl)
      go (fine _) (fine _) = inl (refl, refl)

  start_client-One : (inbox : ℕ) (peer : Peer) → One inbox (start_client sys inbox peer)
  unfolding start_client
  start_client-One inbox peer = go (sys.new_client peer.endpoint peer.api_key)
    where
      go :
          (o : Outcome sys.NetError sys.Client)
          → One inbox (elim o as (λ _. Tasks sys × Bool) [
            | fault _ ↦ ([], false)
            | fine client ↦
                spawn_both sys (Task.reads inbox client) (Task.watches inbox peer.endpoint client)
          ])
      go (fault _) = inr (refl, refl)
      go (fine client) = spawn_both-One inbox peer.endpoint client

  start_one-One : (key : Text) (inbox : ℕ) (raw : Text) → One inbox (start_one sys key inbox raw)
  unfolding start_one
  start_one-One key inbox raw =
      go (parse_peer (with_host_alias raw hop_alias (sys.slot_ip hop_slot)) key)
    where
      go :
          (o : Result Peer)
          → One inbox (elim o as (λ _. Tasks sys × Bool) [
            | err _ ↦ ([], false)
            | ok peer ↦ start_client sys inbox peer
          ])
      go (err _) = inr (refl, refl)
      go (ok peer) = start_client-One inbox peer

  -- The watchers have inboxes of these, in their order, and are counted.
  abbrev Counted : List ℕ → ℕ → Tasks sys × ℕ → Type 0
  Counted boxes n p = Chosen (watched (p.0)) boxes × (p.1 ≡ n + length (watched (p.0)))

  first-Counted :
      (inbox : ℕ) (boxes : List ℕ) (n : ℕ) (one : Tasks sys × Bool) (later : ℕ → Tasks sys × ℕ)
      → One inbox one
      → ((k : ℕ) → Counted boxes k (later k))
      → Counted
          (inbox ∷ boxes)
          n
          (one.0 ++ (later (if one.1 then n + 1 else n)).0, (later (if one.1 then n + 1 else n)).1)
  first-Counted inbox boxes n (tasks, true) later (inl (_, w)) counts =
      let (c, e) = counts (n + 1) in
      let all : watched (tasks ++ (later (n + 1)).0) ≡ inbox ∷ watched ((later (n + 1)).0) =
        watched-append tasks ((later (n + 1)).0) ∙ rw w refl in
      (
        subst (λ (xs : List ℕ). Chosen xs (inbox ∷ boxes)) (sym all) (Chosen.keep inbox c),
        omega (arith, ap length all),
      )
  first-Counted inbox boxes n (tasks, false) later (inr (_, w)) counts =
      let (c, e) = counts n in
      let all : watched (tasks ++ (later n).0) ≡ watched ((later n).0) =
        watched-append tasks ((later n).0) ∙ rw w refl in
      (
        subst (λ (xs : List ℕ). Chosen xs (inbox ∷ boxes)) (sym all) (Chosen.skip inbox c),
        omega (arith, ap length all),
      )
  first-Counted inbox boxes n (tasks, true) later (inr (h, w)) counts = cc
  first-Counted inbox boxes n (tasks, false) later (inl (h, w)) counts = cc

  start_each-Counted :
      (key : Text) (raws : List Text) (boxes : List ℕ) (n : ℕ)
      → Counted boxes n (start_each sys key raws n boxes)
  unfolding start_each
  start_each-Counted key [] boxes n = (Chosen.stop boxes, omega arith)
  start_each-Counted key (raw ∷ raws) [] n = (Chosen.stop [], omega arith)
  start_each-Counted key (raw ∷ raws) (inbox ∷ boxes) n =
      first-Counted inbox boxes n (start_one sys key inbox raw)
        (λ k. start_each sys key raws k boxes) (start_one-One key inbox raw)
        (λ k. start_each-Counted key raws boxes k)

  -- The watchers that `start_peers` spawned have inboxes among 0 to 3 in that order, no two the
  -- same, the number it gives is the number of these watchers, and it is at most 4.
  pub start_peers_lem :
      (list key : Text)
      → Chosen (watched (start_peers sys list key).0) (0 ∷ 1 ∷ 2 ∷ 3 ∷ [])
        × ((start_peers sys list key).1 ≡ length (watched (start_peers sys list key).0))
        × ((start_peers sys list key).1 ≤ 4)
  unfolding start_peers inboxes
  start_peers_lem list key =
      let (c, e) = start_each-Counted key (peer_list list) (0 ∷ 1 ∷ 2 ∷ 3 ∷ []) 0 in
      (c, omega (arith, e), omega (arith, e, Chosen-length c))
