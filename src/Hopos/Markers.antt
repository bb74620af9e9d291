-- ===== src/Hopos/Markers.antt =====
-- src/bin/hopdns-hopos.rs: the marker of the cache that the server task logs.
use hopdns.Base.{List, [], ◌∷◌, ◌≡◌, ◌⊎◌}
use hopdns.Hopos.{Resident}
use hopdns.Hopos.Cached.{taken}
use hopdns.Hopos.Serve.{Counts, counts_of, Round, Serving, Out, sends, shows}
use hopdns.Server.{Server}

module _ (sys : Resident) where
  -- The last marker that was logged, after this one.
  abbrev pub last_shown : Counts → List (Out sys) → Counts
  last_shown shown [] = shown
  last_shown shown (sends msg to ∷ out) = last_shown shown out
  last_shown shown (shows now ∷ out) = last_shown now out

  -- No message came yet, and nothing was logged; or the counts are those of the cache.
  abbrev Marked : Serving sys → List (Round sys) → Serving sys × List (Out sys) → Type 0
  Marked s rounds p =
      (last_shown s.shown (p.1) ≡ p.0.shown)
      × (((taken sys rounds ≡ []) × (p.0.cache ≡ s.cache) × (p.0.shown ≡ s.shown))
          ⊎ (p.0.shown ≡ counts_of p.0.cache))
