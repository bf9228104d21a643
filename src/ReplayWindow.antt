-- ===== src/ReplayWindow.antt =====
-- src/transport/reliability/replay-window.ts, class ReplayWindow.
pub mod Safety
pub mod Exact
mod Tests
use signalk_edge_link.Prelude.{
  ℕ, ◌<◌, Bool, true, false, not, ◌&&◌, Option, none, some, List, [], ◌∷◌, ltb, leb, ◌==◌,
  if◌then◌else◌, length, map,
}
use signalk_edge_link.Serial.{half, u32, sub32, is_near}
use signalk_edge_link.JsSet.{has, add, keep, delete_all}

pub record ReplayWindow : Type 0 where
  pub highest : Option ℕ
  pub seen : List ℕ
  pub size : ℕ

abbrev pub replay_window_size : ℕ
replay_window_size = 1024

unfoldable pub create : ℕ → ReplayWindow
create size = record {
  highest = none;
  seen = [];
  size = if ltb 0 size then size else replay_window_size;
}

pub is_empty : ReplayWindow → Bool
is_empty w = elim w.highest [ none ↦ true | some h ↦ false ]

unfoldable pub reset : ReplayWindow → ReplayWindow
reset w = record w { highest = none; seen = [] }

unfoldable pub prune_if_needed : ReplayWindow → ReplayWindow
prune_if_needed w = elim w.highest [
  | none ↦ w
  | some highest ↦
      if leb (length w.seen) w.size
      then w
      else record w { seen = delete_all w.seen (keep (λ s. leb w.size (sub32 highest s)) w.seen) }
]

-- `accept` returns the verdict and the window that it leaves.
unfoldable pub accept_above : ReplayWindow → ℕ → ℕ → Bool × ReplayWindow
unfolding prune_if_needed
accept_above w highest seq =
    if is_near (sub32 seq highest)
    then (true, prune_if_needed (record w { highest = some seq; seen = add w.seen seq }))
    else if leb w.size (sub32 highest seq)
    then (false, w)
    else if has w.seen seq
    then (false, w)
    else (true, record w { seen = add w.seen seq })

unfoldable pub accept : ReplayWindow → ℕ → Bool × ReplayWindow
unfolding accept_above
accept w sequence = elim w.highest [
  | none ↦ (true, record w { highest = some (u32 sequence); seen = u32 sequence ∷ [] })
  | some highest ↦ accept_above w highest (u32 sequence)
]

-- A run of `accept` over a stream of datagrams, and the numbers that it let through.
unfoldable pub accepted : ReplayWindow → List ℕ → List ℕ
accepted w [] = []
accepted w (n ∷ ns) =
    let rest = accepted (accept w n).1 ns in if (accept w n).0 then n ∷ rest else rest

pub verdicts : ReplayWindow → List ℕ → List Bool
verdicts w [] = []
verdicts w (n ∷ ns) = (accept w n).0 ∷ verdicts (accept w n).1 ns
