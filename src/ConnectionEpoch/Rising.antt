-- ===== src/ConnectionEpoch/Rising.antt =====
-- The epochs of a client rise from start to start.
use signalk_edge_link.Prelude.{
  ℕ, ◌≤◌, ◌<◌, ◌≡◌, Bool, true, false, Option, List, [], ◌∷◌, arith, All, ◌⊎◌, inl, inr, Bool-cases,
}
use signalk_edge_link.ConnectionEpoch.{stored_epoch, resolve_monotonic_epoch, Start, epochs}

-- Every epoch that was saved is below all epochs after it.
abbrev pub Rising : List (ℕ × Bool) → Type 0
Rising [] = Unit
Rising (e ∷ es) = ((e.1 ≡ false) ⊎ All (λ (later : ℕ × Bool). e.0 < later.0) es) × Rising es

epochs-above :
    (file : Option ℕ) (ss : List Start) (n : ℕ)
    → n ≤ stored_epoch file true
    → All (λ (later : ℕ × Bool). n < later.0) (epochs file ss)
unfolding epochs stored_epoch resolve_monotonic_epoch
epochs-above file [] n h = tt
epochs-above file (s ∷ ss) n h = (
  omega arith,
  epochs-above (resolve_monotonic_epoch true file s.now true s.writable).1 ss n (ground arith),
)

-- Whatever the clock shows at each start, also one that was set back or lost by a reboot, an epoch that
-- was saved is below the epochs of all later starts, as long as the file can be read; starts that
-- cannot save their epoch may stand between them.
pub epochs-Rising : (file : Option ℕ) (ss : List Start) → Rising (epochs file ss)
unfolding epochs stored_epoch resolve_monotonic_epoch
epochs-Rising file [] = tt
epochs-Rising file (s ∷ ss) =
    let next = resolve_monotonic_epoch true file s.now true s.writable in
    (
      elim (Bool-cases s.writable) [
        | inl saved ↦ inr (epochs-above next.1 ss next.0 (ground arith))
        | inr lost ↦ inl lost
      ],
      epochs-Rising next.1 ss,
    )
