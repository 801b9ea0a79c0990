-- ===== src/Journal/Resume.antt =====
-- Where `replayVerifyFrom` of hub/journal.mjs agrees with the full replay.
use ainumbers_helm.Prelude.{ℕ, String, Option, some, List, [], ◌∷◌}
use ainumbers_helm.Prelude.Dict.{Dict, get, set}
use ainumbers_helm.Journal.{Row, Journal, link, rh_or_seed}

-- The hash of the last row of a stream, or what stood before.
abbrev pub last_rh : Option String → List Row → Option String
last_rh h [] = h
last_rh h (r ∷ rs) = last_rh (some r.rh) rs

-- The map of running hashes after rows that were accepted.
advance : Dict String → List Row → Dict String
advance heads [] = heads
advance heads (r ∷ rs) = advance (set heads r.stream_id r.rh) rs

module _ (sha256_hex : List ℕ → String) where
  next : Dict String → Row → String
  next heads r =
      link sha256_hex (rh_or_seed sha256_hex (get heads r.stream_id) r.stream_id) r.stream_id r.seq
        r.entry_digest
