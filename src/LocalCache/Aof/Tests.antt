-- ===== src/LocalCache/Aof/Tests.antt =====
-- Runs of the append-only file, and its theorem at one input.
use system_design.Common.{◌≡◌, refl, true, [], ◌∷◌, none, some}
use system_design.Common.Bytes.{codes, beq}
use system_design.Common.Assoc.{lookup}
use system_design.LocalCache.Aof.{Lines, append_set, append_delete, scan, replay_aof}
use system_design.LocalCache.Aof.Recent.{lookup-scan, last_said}

-- A value without an expiry, then one that expires at 50.
abbrev file : Lines
file =
    (append_set true (codes "k") (codes "new") (some 50)
      (append_set true (codes "k") (codes "old") none (none ∷ [])).1).1

replay_early :
    replay_aof true true 40 file
    ≡ some (record { key = codes "k"; value = codes "new"; expires_at = some 50 } ∷ [])
unfolding replay_aof append_set beq
replay_early = refl

-- The value that was overwritten comes back.
replay_late :
    replay_aof true true 60 file
    ≡ some (record { key = codes "k"; value = codes "old"; expires_at = none } ∷ [])
unfolding replay_aof append_set beq
replay_late = refl

replay_deleted : replay_aof true true 60 (append_delete true (codes "k") file).1 ≡ some []
unfolding replay_aof append_set beq append_delete
replay_deleted = refl

lookup-scan_example :
    lookup (codes "k") (scan 60 file [])
    ≡ elim (last_said 60 (codes "k") file) [ none ↦ none | some said ↦ said ]
lookup-scan_example = lookup-scan 60 (codes "k") file
