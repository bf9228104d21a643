-- ===== src/CircularBuffer.antt =====
-- src/foundation/circular-buffer.ts, class CircularBuffer. A slot that was never written is `none`
-- (`undefined`), and so is a read of one.
pub mod History
mod Tests
use signalk_edge_link.Prelude.{
  ℕ, ◌+◌, ◌%◌, Bool, true, false, ◌||◌, Option, none, some, List, ◌++◌, ltb, ◌==◌, if◌then◌else◌,
  set, take, drop, replicate,
}

pub record CircularBuffer {ℓ} (A : Type ℓ) : Type ℓ where
  pub buffer : List (Option A)
  pub size : ℕ
  pub index : ℕ
  pub filled : Bool

module _ {ℓ} {A : Type ℓ} where
  -- `none` is the constructor's error.
  unfoldable pub create : ℕ → Option (CircularBuffer A)
  create size =
      if size == 0
      then none
      else some (record { buffer = replicate size none; size = size; index = 0; filled = false })

  unfoldable pub push : CircularBuffer A → A → CircularBuffer A
  push b item =
      let index' = (b.index + 1) % b.size in
      record b {
        buffer = set b.buffer b.index (some item);
        index = index';
        filled = if index' == 0 then true else b.filled;
      }

  unfoldable pub to_array : CircularBuffer A → List (Option A)
  to_array b =
      if b.filled then drop b.index b.buffer ++ take b.index b.buffer else take b.index b.buffer

  unfoldable pub length_of : CircularBuffer A → ℕ
  length_of b = if b.filled then b.size else b.index
