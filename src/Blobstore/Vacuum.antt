-- ===== src/Blobstore/Vacuum.antt =====
-- Start and stop of the vacuum: `Start` of internal/blobstore/fs/vacuum.go with the function that it
-- returns, and `StartVacuumProcess` and `StopVacuumProcess` of deleter.go. Each runs under the
-- mutex, so each is one step.
use omnistash.Base.{ℕ, suc, Bool, false, ◌||◌, Option, none, some, List, [], ◌∷◌, eqb}
use omnistash.Base.{if◌then◌else◌, ◌≡◌}

pub record Vacuum : Type 0 where
  -- `VacuumManager.jobs`: the number of the open channel, `none` for nil
  pub jobs : Option ℕ
  -- the number of channels made
  pub made : ℕ
  -- `FilesystemBlobStore.stopVacuum`: the channel that it captured, `none` before the first start
  pub stop_vacuum : Option ℕ
  -- the channels whose stop function has run: `once`
  pub spent : List ℕ
  -- every close of a channel, the last one first
  pub closed : List ℕ

-- After `NewFilesystemBlobStore`.
abbrev pub new_vacuum : Vacuum
new_vacuum = record { jobs = none; made = 0; stop_vacuum = none; spent = []; closed = [] }

unfoldable pub member : ℕ → List ℕ → Bool
member c [] = false
member c (x ∷ xs) = eqb x c || member c xs

-- `Start`, by the channel that is open. With one open it returns nil, and else a stop function, which
-- `StartVacuumProcess` keeps.
abbrev pub start_unless : Option ℕ → Vacuum → Vacuum
start_unless (some c) v = v
start_unless none v = record v { jobs = some v.made; made = suc v.made; stop_vacuum = some v.made }

-- `StartVacuumProcess`
unfoldable pub start_vacuum_process : Vacuum → Vacuum
start_vacuum_process v = start_unless v.jobs v

abbrev pub close_open : ℕ → Option ℕ → Vacuum → Vacuum
close_open c none v = v
close_open c (some j) v = if eqb j c then record v { jobs = none; closed = c ∷ v.closed } else v

-- The stop function of a channel.
abbrev pub stop : Option ℕ → Vacuum → Vacuum
stop none v = v
stop (some c) v =
    if member c v.spent then v else close_open c v.jobs (record v { spent = c ∷ v.spent })

-- `StopVacuumProcess`
unfoldable pub stop_vacuum_process : Vacuum → Vacuum
stop_vacuum_process v = stop v.stop_vacuum v

-- The states of a store after any starts and stops.
pub data Reachable : Vacuum → Type 0 where
  fresh : {v : Vacuum} → v ≡ new_vacuum → Reachable v
  started : {v : Vacuum} (u : Vacuum) → Reachable u → v ≡ start_vacuum_process u → Reachable v
  stopped : {v : Vacuum} (u : Vacuum) → Reachable u → v ≡ stop_vacuum_process u → Reachable v
