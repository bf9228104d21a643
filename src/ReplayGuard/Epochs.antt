-- ===== src/ReplayGuard/Epochs.antt =====
-- A guard over one connection epoch.
use signalk_edge_link.Prelude.{
  ℕ, ◌≤◌, ◌<◌, ◌≡◌, refl, ap, Bool, true, false, List, [], ◌∷◌, ltb, ◌==◌, if◌then◌else◌, arith,
  inl, inr, Bool-cases, All,
}
use signalk_edge_link.JsSet.{Distinct}
use signalk_edge_link.ReplayWindow.{create, reset, accept, accepted, replay_window_size}
use signalk_edge_link.ReplayWindow.Safety.{Reach, accepted-Distinct, accept-u32}
use signalk_edge_link.ReplayGuard.{ReplayGuard, advance_epoch, check_data}

-- What a peer's packets can bring, its own or replayed ones: DATA with a number, or a HELLO.
pub data Arrival : Type 0 where
  data_number : ℕ → Arrival
  hello_epoch : ℕ → Arrival

-- The numbers of the DATA that pass the guard.
unfoldable pub passed : Bool → ReplayGuard → List Arrival → List ℕ
passed known g [] = []
passed known g (data_number n ∷ as_) =
    let rest = passed known (check_data known g n).1 as_ in
    if (check_data known g n).0 then rest else n ∷ rest
passed known g (hello_epoch e ∷ as_) = passed known (advance_epoch g e).1 as_

-- The numbers of the DATA.
unfoldable pub numbers : List Arrival → List ℕ
numbers [] = []
numbers (data_number n ∷ as_) = n ∷ numbers as_
numbers (hello_epoch e ∷ as_) = numbers as_

-- No HELLO of a later epoch.
abbrev IsStale : ℕ → Arrival → Type 0
IsStale epoch (data_number n) = Unit
IsStale epoch (hello_epoch e) = e ≤ epoch

passed-accepted :
    (known : Bool) (g : ReplayGuard) (as_ : List Arrival)
    → g.handshaked ≡ true
    → 0 < g.epoch
    → All (IsStale g.epoch) as_
    → passed known g as_ ≡ accepted g.window (numbers as_)
unfolding passed accepted numbers check_data advance_epoch
passed-accepted known g [] h p s = refl
passed-accepted known g (data_number n ∷ as_) h p s =
    let a = accept-u32 g.window n in
    let positive : (g.epoch == 0) ≡ false = ground arith in
    let rest =
      passed-accepted known (record g { window = (accept g.window n).1; handshaked = true }) as_
        refl p s.1 in
    elim (Bool-cases (accept g.window n).0) [
      | inl fresh ↦ rw (h, a, positive, fresh) (ap (λ ns. n ∷ ns) rest)
      | inr replay ↦ rw (h, a, positive, replay) rest
    ]
passed-accepted known g (hello_epoch e ∷ as_) h p s =
    let stale : ltb g.epoch e ≡ false = ground (arith, s.0) in
    rw stale (passed-accepted known g as_ h p s.1)

-- Once a HELLO of a higher epoch has arrived from a peer that has handshaked, no DATA number passes its
-- guard twice until a HELLO of a still higher epoch does: replayed packets and replayed HELLOs of this or
-- an earlier epoch may come in any order, as long as each number is within 2 ^ 31 of the highest before
-- it. The guard's window has its size from the constructor, which is at most 2 ^ 31.
pub passed-Distinct :
    (known : Bool) (g : ReplayGuard) (epoch first : ℕ) (as_ : List Arrival)
    → g.handshaked ≡ true
    → g.epoch < epoch
    → reset g.window ≡ create replay_window_size
    → All (IsStale epoch) as_
    → Reach first (numbers as_)
    → Distinct (passed known (advance_epoch g epoch).1 (data_number first ∷ as_))
unfolding advance_epoch numbers
passed-Distinct known g epoch first as_ h l w s r =
    let higher : ltb g.epoch epoch ≡ true = ground arith in
    let g' : ReplayGuard = record g { window = create replay_window_size; epoch = epoch } in
    rw (higher, w, passed-accepted known g' (data_number first ∷ as_) h (omega arith) (tt, s))
      (accepted-Distinct replay_window_size first (numbers as_) (omega arith) r)
