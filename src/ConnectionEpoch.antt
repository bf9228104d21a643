-- ===== src/ConnectionEpoch.antt =====
-- src/transport/reliability/connection-epoch.ts. The file is its `epoch` field, if it holds a number;
-- whether it can be read and written are arguments, as is the clock. A write that fails leaves the file
-- as it was, since it goes to another file that is renamed.
pub mod Rising
mod Tests
use signalk_edge_link.Prelude.{
  ℕ, ◌+◌, max, Bool, true, false, Option, none, some, List, [], ◌∷◌, if◌then◌else◌,
}

-- `loadConfigFileSafe`, and the test that the stored number is positive, with 0 otherwise.
pub stored_epoch : Option ℕ → Bool → ℕ
stored_epoch none readable = 0
stored_epoch (some v) readable = if readable then v else 0

-- The epoch, and the file that is left. Without a file it is the clock.
pub resolve_monotonic_epoch : Bool → Option ℕ → ℕ → Bool → Bool → ℕ × Option ℕ
unfolding stored_epoch
resolve_monotonic_epoch false file now readable writable = (now, file)
resolve_monotonic_epoch true file now readable writable =
    let epoch = max now (stored_epoch file readable + 1) in
    (epoch, if writable then some epoch else file)

-- A start of the client: the clock's reading, and whether the file can be written.
pub record Start : Type 0 where
  pub now : ℕ
  pub writable : Bool

-- The epochs of a series of starts with a file that can be read, each with whether it was saved.
pub epochs : Option ℕ → List Start → List (ℕ × Bool)
epochs file [] = []
epochs file (s ∷ ss) =
    let (epoch, file') = resolve_monotonic_epoch true file s.now true s.writable in
    (epoch, s.writable) ∷ epochs file' ss
