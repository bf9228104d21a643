-- ===== src/ConnectionEpoch/Tests.antt =====
-- A clock that was set back between two starts.
use signalk_edge_link.Prelude.{true, false, none, List, [], ◌∷◌}
use signalk_edge_link.ConnectionEpoch.{Start, epochs}
use signalk_edge_link.ConnectionEpoch.Rising.{Rising, epochs-Rising}

abbrev starts : List Start
starts =
    record { now = 1000; writable = true }
    ∷ record { now = 5; writable = false }
    ∷ record { now = 7; writable = true }
    ∷ []

epochs-Rising_example : Rising (epochs none starts)
epochs-Rising_example = epochs-Rising none starts
