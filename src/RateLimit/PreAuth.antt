-- ===== src/RateLimit/PreAuth.antt =====
-- The limiter per address, with the traffic of other addresses and the pruning that it causes.
use signalk_edge_link.Prelude.{
  ℕ, ◌+◌, ◌*◌, ◌≤◌, ◌≡◌, false, Option, none, some, List, [], ◌∷◌, ltb, ◌==◌, ==_iff, if◌then◌else◌,
  arith, ◌⊎◌, inl, inr, Bool-cases, Option-cases, length, All,
}
use signalk_edge_link.JsSet.{Distinct}
use signalk_edge_link.JsMap
use signalk_edge_link.JsMap.{keys, reject}
use signalk_edge_link.JsMap.Laws
use signalk_edge_link.JsMap.Laws.{get-reject_by}
use signalk_edge_link.RateLimit.{
  Counter, Counters, max_packets, is_over, started, counted, prune_counters, count_at, open_window,
  pre_auth_rate_limited,
}
use signalk_edge_link.RateLimit.Budget.{InWindow, allowance}

-- The packets of the address `a` that are let through, among those of all addresses.
pub passed_of : ℕ → Counters → List (ℕ × ℕ) → ℕ
passed_of a m [] = 0
passed_of a m ((b, now) ∷ ps) =
    let rest = passed_of a (pre_auth_rate_limited m b now).1 ps in
    if a == b then (if (pre_auth_rate_limited m b now).0 then rest else rest + 1) else rest

-- What is still allowed for an address, with or without an entry.
abbrev left_for : ℕ → Option Counter → ℕ
left_for from none = max_packets
left_for from (some c) = allowance from c

-- Pruning takes nothing from an address that is counted in this interval.
left-prune_counters :
    (from : ℕ) (m : Counters) (now k : ℕ)
    → Distinct (keys m)
    → InWindow from now
    → left_for from (JsMap.get (prune_counters m now) k) ≤ left_for from (JsMap.get m k)
unfolding prune_counters
left-prune_counters from m now k d i =
    let gone = get-reject_by (λ c. is_over c now) m k d in
    elim (Bool-cases (ltb 400 (length m))) [
      | inr few ↦ rw few (omega arith)
      | inl many ↦
          rw (many, gone)
            (elim (Option-cases (JsMap.get m k)) [
              | inl e ↦ rw e (omega arith)
              | inr (c, e) ↦ rw e (ground arith)
            ])
    ]

keys-prune_counters :
    (m : Counters) (now : ℕ) → Distinct (keys m) → Distinct (keys (prune_counters m now))
unfolding prune_counters
keys-prune_counters m now d = elim (Bool-cases (ltb 400 (length m))) [
  | inr few ↦ rw few d
  | inl many ↦ rw many (Laws.Distinct-keys-reject (λ ip c. is_over c now) m d)
]

-- One packet, of this address or another.
abbrev Spends : ℕ → ℕ → Counters → ℕ → ℕ → Type 0
Spends from a m b now =
    let r = pre_auth_rate_limited m b now in
    ((if a == b then (if r.0 then 0 else 1) else 0) + left_for from (JsMap.get r.1 a)
      ≤ left_for from (JsMap.get m a))
    × Distinct (keys r.1)

count_at-left :
    (from a : ℕ) (m : Counters) (b : ℕ) (c : Counter)
    → (if a == b then (if (count_at m b c).0 then 0 else 1) else 0)
        + left_for from (JsMap.get (count_at m b c).1 a)
      ≤ (if a == b then allowance from c else left_for from (JsMap.get m a))
count_at-left from a m b c = ground (arith, Laws.get-set m b (counted c) a)

open_window-left :
    (from a : ℕ) (m : Counters) (b now : ℕ)
    → Distinct (keys m)
    → InWindow from now
    → ((a == b) ≡ false) ⊎ (max_packets ≤ left_for from (JsMap.get m a))
    → ((if a == b then (if (open_window m b now).0 then 0 else 1) else 0)
          + left_for from (JsMap.get (open_window m b now).1 a)
        ≤ left_for from (JsMap.get m a))
      × Distinct (keys (open_window m b now).1)
unfolding open_window
open_window-left from a m b now d i h =
    let m1 = JsMap.set m b (started now) in
    let d1 = Laws.Distinct-keys-set m b (started now) d in
    let m2 = prune_counters m1 now in
    let d2 = keys-prune_counters m1 now d1 in
    let one = count_at-left from a m2 b (started now) in
    let two = left-prune_counters from m1 now a d1 i in
    let three = Laws.get-set m b (started now) a in
    (ground (arith, one, two, three, h), Laws.Distinct-keys-set m2 b (counted (started now)) d2)

-- A fact about the entry of `b` is one about that of `a`, if they are the same.
other_or_left :
    (from a b : ℕ) (m : Counters)
    → max_packets ≤ left_for from (JsMap.get m b)
    → ((a == b) ≡ false) ⊎ (max_packets ≤ left_for from (JsMap.get m a))
other_or_left from a b m h = elim (Bool-cases (a == b)) [
  | inr other ↦ inl other
  | inl same ↦ let e : a ≡ b = (==_iff a b).0 same in inr (rw e h)
]

pre_auth-Spends :
    (from a : ℕ) (m : Counters) (b now : ℕ)
    → Distinct (keys m)
    → InWindow from now
    → Spends from a m b now
unfolding pre_auth_rate_limited
pre_auth-Spends from a m b now d i = elim (Option-cases (JsMap.get m b)) [
  | inl e ↦
      rw (e, pre_auth_rate_limited)
        (open_window-left from a m b now d i (other_or_left from a b m (rw e (omega arith))))
  | inr (c, e) ↦ elim (Bool-cases (is_over c now)) [
    | inl over ↦
        rw (e, pre_auth_rate_limited, over)
          (open_window-left from a m b now d i (other_or_left from a b m (rw e (ground arith))))
    | inr open_ ↦
        rw (e, pre_auth_rate_limited, open_)
          (ground (arith, count_at-left from a m b c), Laws.Distinct-keys-set m b (counted c) d)
  ]
]

passed_of-le :
    (from a : ℕ) (m : Counters) (ps : List (ℕ × ℕ))
    → Distinct (keys m)
    → All (λ (p : ℕ × ℕ). InWindow from p.1) ps
    → passed_of a m ps ≤ left_for from (JsMap.get m a)
unfolding passed_of
passed_of-le from a m [] d i = omega arith
passed_of-le from a m ((b, now) ∷ ps) d i =
    let (s, d') = pre_auth-Spends from a m b now d i.0 in
    ground (arith, s, passed_of-le from a (pre_auth_rate_limited m b now).1 ps d' i.1)

-- No address gets more than 400 packets past the limiter in a second, whatever other addresses send and
-- whatever entries are pruned for it: of the packets that arrive within any interval of one window
-- length, at most twice the limit are let through for it.
pub pre_auth-budget :
    (from a : ℕ) (m : Counters) (ps : List (ℕ × ℕ))
    → Distinct (keys m)
    → All (λ (p : ℕ × ℕ). InWindow from p.1) ps
    → passed_of a m ps ≤ 2 * max_packets
pre_auth-budget from a m ps d i = elim (Option-cases (JsMap.get m a)) [
  | inl e ↦ omega (arith, rw e at (passed_of-le from a m ps d i))
  | inr (c, e) ↦ ground (arith, rw e at (passed_of-le from a m ps d i))
]
