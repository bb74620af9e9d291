-- ===== src/Hopos/Serve.antt =====
-- src/bin/hopdns-hopos.rs: the server task. It waits for a query or a message, whichever comes first.
use hopdns.Base.{
  ℕ, ◌-◌, ◌^◌, Bool, not, ◌&&◌, List, [], ◌∷◌, ◌++◌, none, some, ◌==◌, if◌then◌else◌, replicate,
  slice,
}
use hopdns.Cache
use hopdns.Cache.{Cache}
use hopdns.Host.{Outcome, fine, fault}
use hopdns.Host.Serve.{Message}
use hopdns.Hopos.{Resident}
use hopdns.Server.{Server, handle}
use hopdns.Watcher
use hopdns.Wire.{edns_max}

-- `apply`: an error is logged.
unfoldable pub apply : Message → Cache → Cache
apply (grant, u) c = (Watcher.apply grant u c).0

-- `while let Some(u) = UPDATES.try_recv()`.
unfoldable pub apply_all : List Message → Cache → Cache
apply_all [] c = c
apply_all (m ∷ rest) c = apply_all rest (apply m c)

-- `cache.jobs()` and `cache.clusters()`.
abbrev pub Counts : Type 0
Counts = ℕ × ℕ

unfoldable pub counts_of : Cache → Counts
counts_of c = (Cache.jobs c, Cache.cluster_count c)

abbrev pub usize_max : ℕ
usize_max = 2 ^ 64 - 1

module _ (sys : Resident) where
  -- What `select` gives: what the buffer of the query holds and what the receive gives, or the first
  -- message, with those that are in the mailbox behind it.
  pub data Round : Type 0 where
    asked : List ℕ → Outcome sys.NetError (ℕ × sys.Address) → Round
    told : Message → List Message → Round

  pub record Serving : Type 0 where
    pub cache : Cache
    pub answer : List ℕ
    pub shown : Counts

  unfoldable pub begin : Serving
  begin = record {
    cache = Cache.new;
    answer = replicate edns_max 0;
    shown = (usize_max, usize_max);
  }

  -- What leaves the task: a datagram, or the marker of the cache.
  pub data Out : Type 0 where
    sends : List ℕ → sys.Address → Out
    shows : Counts → Out

  unfoldable pub respond : Server → List ℕ → sys.Address → Serving → Serving × List Out
  respond server msg from s = elim (handle server s.cache msg s.answer) [
    | none ↦ (s, [])
    | some (buf, len) ↦ (
      record s { answer = buf },
      elim (slice buf 0 len) [ none ↦ [] | some out ↦ sends out from ∷ [] ],
    )
  ]

  unfoldable pub same_counts : Counts → Counts → Bool
  same_counts a b = a.0 == b.0 && a.1 == b.1

  -- The marker is logged when the counts are new.
  unfoldable pub show_counts : Serving → Serving × List Out
  show_counts s =
      let now = counts_of s.cache in
      if not (same_counts now s.shown) then (record s { shown = now }, shows now ∷ []) else (s, [])

  -- The body of the loop.
  unfoldable pub turn : Server → Round → Serving → Serving × List Out
  turn server (asked query (fault _)) s = (s, [])
  turn server (asked query (fine (n, from))) s = elim (slice query 0 n) [
    | none ↦ (s, [])
    | some msg ↦ respond server msg from s
  ]
  turn server (told first rest) s =
      show_counts (record s { cache = apply_all rest (apply first s.cache) })

  -- `serve`, over these rounds: it does not end by itself.
  unfoldable pub serve : Server → List Round → Serving → Serving × List Out
  serve server [] s = (s, [])
  serve server (round ∷ rounds) s =
      let (s', out) = turn server round s in
      let (s'', later) = serve server rounds s' in (s'', out ++ later)
