-- ===== src/SequenceTracker/Walk.antt =====
-- The loop `while (this.receivedSeqs.has(this.expectedSeq))`: where it ends, and that it does.
use signalk_edge_link.Prelude.{
  ℕ, zero, suc, ◌+◌, ◌^◌, ◌≤◌, ◌<◌, ◌≡◌, refl, ap, ◌∙◌, true, false, some, List, ◌==◌, arith, ◌⊎◌,
  inl, inr, Bool-cases, length,
}
use signalk_edge_link.Serial.{u32, next32}
use signalk_edge_link.JsSet.{has}
use signalk_edge_link.JsSet.Laws.{
  delete_none, run_of, Distinct-run_of, length-run_of, All-has-run_of, length-le_of_has,
}
use signalk_edge_link.JsMap
use signalk_edge_link.JsMap.Laws as MapLaws
use signalk_edge_link.SequenceTracker.{SequenceTracker, cancel_nak, advance}

-- The number at which the loop ends, by the received set alone.
pub walk : ℕ → List ℕ → ℕ → ℕ
walk zero rs e = e
walk (suc fuel) rs e = elim (has rs e) [ true ↦ walk fuel rs (next32 e) | false ↦ e ]

-- No received sequence has NAK state.
abbrev pub Quiet : SequenceTracker → Type 0
Quiet t =
    (s : ℕ)
    → has t.received_seqs s ≡ true
    → (has t.nak_timers s ≡ false)
      × (has t.pending_naks s ≡ false)
      × (has (JsMap.keys t.nak_attempts) s ≡ false)

-- Cancelling the NAK state of a sequence that has none changes nothing.
cancel_nak_none :
    (t : SequenceTracker) (s : ℕ)
    → has t.nak_timers s ≡ false
    → has t.pending_naks s ≡ false
    → has (JsMap.keys t.nak_attempts) s ≡ false
    → cancel_nak t s ≡ t
unfolding cancel_nak
cancel_nak_none t s a b c = rw (
  delete_none t.nak_timers s a,
  delete_none t.pending_naks s b,
  MapLaws.delete_none t.nak_attempts s c,
)

pub advance-walk :
    (fuel : ℕ) (t : SequenceTracker) (e : ℕ)
    → Quiet t
    → advance fuel t e ≡ record t { expected_seq = some (walk fuel t.received_seqs e) }
unfolding advance walk
advance-walk zero t e q = refl
advance-walk (suc fuel) t e q = elim (Bool-cases (has t.received_seqs e)) [
  | inl h ↦
      let (a, b, c) = q e h in
      rw (h, advance, walk, cancel_nak_none t e a b c) (advance-walk fuel t (next32 e) q)
  | inr h ↦ rw (h, advance, walk)
]

all-next :
    (rs : List ℕ) (e k : ℕ)
    → e < 2 ^ 32
    → has rs e ≡ true
    → ((i : ℕ) → i < k → has rs (u32 (next32 e + i)) ≡ true)
    → (i : ℕ) → i < suc k
    → has rs (u32 (e + i)) ≡ true
all-next rs e k l h all zero j = let q : u32 (e + 0) ≡ e = omega arith in rw q h
all-next rs e k l h all (suc i) j =
    let q : u32 (e + suc i) ≡ u32 (next32 e + i) = omega arith in rw q (all i (omega arith))

stop-next {ℓ} : {P : Type ℓ} {k f : ℕ} → P ⊎ (k ≡ f) → P ⊎ (suc k ≡ suc f)
stop-next (inl p) = inl p
stop-next (inr q) = inr (ap suc q)

-- The loop passes received numbers only, and ends at one that is not received or with its fuel.
pub walk_lem :
    (fuel : ℕ) (rs : List ℕ) (e : ℕ)
    → e < 2 ^ 32
    → (k : ℕ) × (walk fuel rs e ≡ u32 (e + k))
      × (k ≤ fuel)
      × ((i : ℕ) → i < k → has rs (u32 (e + i)) ≡ true)
      × ((has rs (walk fuel rs e) ≡ false) ⊎ (k ≡ fuel))
unfolding walk
walk_lem zero rs e l = (0, omega arith, omega arith, λ i h. absurd (omega arith), inr refl)
walk_lem (suc fuel) rs e l = elim (Bool-cases (has rs e)) [
  | inr h ↦ (
    0,
    rw (h, walk) (omega arith),
    omega arith,
    λ i h. absurd (omega arith),
    inl (rw (h, walk) h),
  )
  | inl h ↦
      let (k, p, f, all, stop) = walk_lem fuel rs (next32 e) (omega arith) in
      (
        suc k,
        rw (h, walk) (p ∙ omega arith),
        omega arith,
        all-next rs e k l h all,
        rw (h, walk) (stop-next stop),
      )
]

-- The loop ends because the next number is not received: as many rounds as there are received numbers
-- are enough, since the numbers that it passes are distinct.
pub walk-stops :
    (rs : List ℕ) (e : ℕ) → e < 2 ^ 32 → length rs < 2 ^ 32 → has rs (walk (length rs) rs e) ≡ false
walk-stops rs e l b =
    let (k, p, f, all, stop) = walk_lem (length rs) rs e l in
    elim (Bool-cases (has rs (walk (length rs) rs e))) [
      | inr h ↦ h
      | inl h ↦ elim stop [
        | inl h' ↦ h'
        | inr q ↦
            let n = length rs in
            let last : has rs (u32 (e + n)) ≡ true = rw (p, q) at h in
            let every : (i : ℕ) → i < suc n → has rs (u32 (e + i)) ≡ true = λ i j.
              elim (Bool-cases (i == n)) [
                | inl same ↦ let s : i ≡ n = ground arith in rw s last
                | inr less ↦ all i (ground arith)
              ] in
            let pigeon =
              length-le_of_has (run_of e (suc n)) rs (Distinct-run_of e (suc n) (omega arith))
                (All-has-run_of rs e (suc n) every) in
            absurd (omega (arith, pigeon, length-run_of e (suc n)))
      ]
    ]

-- Where no received sequence has NAK state, the loop that moves `expectedSeq` moves it over received
-- sequences only, stops at the first number that is not received, and changes nothing else: as many
-- rounds as there are received sequences are enough.
pub advance-stops :
    (t : SequenceTracker) (e : ℕ)
    → Quiet t
    → e < 2 ^ 32
    → length t.received_seqs < 2 ^ 32
    → (k : ℕ) × (advance (length t.received_seqs) t e
        ≡ record t { expected_seq = some (u32 (e + k)) })
      × ((i : ℕ) → i < k → has t.received_seqs (u32 (e + i)) ≡ true)
      × (has t.received_seqs (u32 (e + k)) ≡ false)
advance-stops t e q l b =
    let rs = t.received_seqs in
    let (k, p, f, all, stop) = walk_lem (length rs) rs e l in
    (k, rw p at (advance-walk (length rs) t e q), all, rw p at (walk-stops rs e l b))
