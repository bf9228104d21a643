-- ===== src/CircularBuffer/Tests.antt =====
-- A circular buffer of three slots.
use signalk_edge_link.Prelude.{ℕ, ◌≡◌, refl, false, none, some, [], ◌∷◌, replicate}
use signalk_edge_link.CircularBuffer.{CircularBuffer, create, to_array, length_of}
use signalk_edge_link.CircularBuffer.History.{push_all, to_array-push_all}

abbrev three_slots : CircularBuffer ℕ
three_slots = record { buffer = replicate 3 none; size = 3; index = 0; filled = false }

create-three_slots : create 3 ≡ some three_slots
unfolding create
create-three_slots = refl

to_array-push_all_example :
    (to_array (push_all three_slots (1 ∷ 2 ∷ 3 ∷ 4 ∷ [])) ≡ some 2 ∷ some 3 ∷ some 4 ∷ [])
    × (length_of (push_all three_slots (1 ∷ 2 ∷ 3 ∷ 4 ∷ [])) ≡ 3)
to_array-push_all_example = to_array-push_all 3 three_slots (1 ∷ 2 ∷ 3 ∷ 4 ∷ []) create-three_slots
