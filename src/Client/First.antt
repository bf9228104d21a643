-- ===== src/Client/First.antt =====
-- What the first ACK leaves in a queue whose numbers lie in one half of the number space
-- (src/transport/reliability/retransmit-queue.ts).
use signalk_edge_link.Prelude.{
  ℕ, ◌-◌, ◌≤◌, ◌<◌, ◌^◌, ◌≡◌, refl, Bool, true, false, none, some, List, [], ◌∷◌, ltb, leb, ◌==◌,
  arith, ◌⊎◌, inl, inr, Bool-cases,
}
use signalk_edge_link.Serial.{u32, sub32, half, is_ahead}
use signalk_edge_link.JsSet.{has}
use signalk_edge_link.JsMap
use signalk_edge_link.JsMap.{keys}
use signalk_edge_link.JsMap.Laws as Laws
use signalk_edge_link.RetransmitQueue.{
  RetransmitQueue, acknowledge_range, acknowledge, remove_where, oldest_outstanding,
}
use signalk_edge_link.Client.Kept.{AllAhead}

-- A number in the half of the number space that starts at `base`.
abbrev pub Near : ℕ → ℕ → Type 0
Near base k = (k < 2 ^ 32) × (sub32 k base < half)

abbrev pub AllNear : ℕ → List ℕ → Type 0
AllNear base ks = (k : ℕ) → has ks k ≡ true → Near base k

-- Forward distances of two such numbers.
apart :
    (base k o : ℕ)
    → Near base k
    → Near base o
    → sub32 o base ≤ sub32 k base
    → sub32 k o ≡ sub32 k base - sub32 o base
apart base k o (a, b) (c, d) le = omega arith

wrapped :
    (base k o : ℕ) → Near base k → Near base o → sub32 k base < sub32 o base → half ≤ sub32 k o
wrapped base k o (a, b) (c, d) lt = omega arith

same_distance : (base m j k : ℕ) → j ≡ k → sub32 m base ≤ sub32 j base → sub32 m base ≤ sub32 k base
same_distance base m j k e le = rw e at le

-- The oldest number is one of the half, and none is before it.
record HasOldest (base o : ℕ) (ks : List ℕ) : Type 0 where
  found : ℕ
  is_found : oldest_outstanding (some o) ks ≡ some found
  near : Near base found
  below_first : sub32 found base ≤ sub32 o base
  below_all : (k : ℕ) → has ks k ≡ true → sub32 found base ≤ sub32 k base

oldest_outstanding-HasOldest :
    (base o : ℕ) (ks : List ℕ) → Near base o → AllNear base ks → HasOldest base o ks
unfolding oldest_outstanding has
oldest_outstanding-HasOldest base o [] n h = record {
  found = o;
  is_found = refl;
  near = n;
  below_first = omega arith;
  below_all = λ k g. absurd (ground arith);
}
oldest_outstanding-HasOldest base o (seq ∷ ks) n h =
    let ns : Near base seq = h seq (ground arith) in
    let hs : AllNear base ks = λ k g. h k (ground arith) in
    let same : u32 seq ≡ seq = omega (arith, ns.0) in
    elim (Bool-cases (ltb (sub32 o (u32 seq)) half)) [
      | inl older ↦
          let le : sub32 seq base ≤ sub32 o base =
            elim (Bool-cases (ltb (sub32 o base) (sub32 seq base))) [
              | inl wrong ↦
                  absurd (ground (arith, wrapped base o seq n ns (ground arith), same, older))
              | inr right ↦ ground arith
            ] in
          let r = oldest_outstanding-HasOldest base seq ks ns hs in
          record {
            found = r.found;
            is_found = rw (older, same) r.is_found;
            near = r.near;
            below_first = omega (arith, r.below_first);
            below_all = λ k g. elim (Bool-cases (seq == k)) [
              | inl this ↦ same_distance base r.found seq k (ground arith) r.below_first
              | inr other ↦ r.below_all k (ground arith)
            ];
          }
      | inr younger ↦
          let le : sub32 o base ≤ sub32 seq base =
            elim (Bool-cases (ltb (sub32 seq base) (sub32 o base))) [
              | inl wrong ↦
                  absurd (ground (arith, apart base o seq n ns (ground arith), same, younger, n.1))
              | inr right ↦ ground arith
            ] in
          let r = oldest_outstanding-HasOldest base o ks n hs in
          record {
            found = r.found;
            is_found = rw younger r.is_found;
            near = r.near;
            below_first = r.below_first;
            below_all = λ k g. elim (Bool-cases (seq == k)) [
              | inl this ↦
                  same_distance base r.found seq k (ground arith) (omega (arith, r.below_first, le))
              | inr other ↦ r.below_all k (ground arith)
            ];
          }
    ]

after_ack :
    (base o acked k : ℕ)
    → Near base o
    → Near base acked
    → Near base k
    → sub32 o base ≤ sub32 k base
    → (half ≤ sub32 acked o) ⊎ (sub32 acked o < sub32 k o)
    → is_ahead k acked ≡ true
after_ack base o acked k near_o na nk le (inl stale) =
    elim (Bool-cases (ltb (sub32 acked base) (sub32 o base))) [
      | inl before ↦ ground (arith, apart base k acked nk na (ground arith), na.1, nk.1)
      | inr after ↦ absurd (ground (arith, apart base acked o na near_o (ground arith), na.1))
    ]
after_ack base o acked k near_o na nk le (inr above) =
    elim (Bool-cases (ltb (sub32 acked base) (sub32 o base))) [
      | inl before ↦ ground (arith, apart base k acked nk na (ground arith), na.1, nk.1)
      | inr after ↦
          let x = apart base acked o na near_o (ground arith) in
          let y = apart base k o nk near_o le in
          ground (arith, apart base k acked nk na (omega arith), na.1, nk.1)
    ]

-- The keys that `oldest_outstanding` looks at, if there are any.
acknowledge-AllAhead :
    (base acked : ℕ) (q : RetransmitQueue) (ks : List ℕ)
    → keys q.queue ≡ ks
    → AllNear base (keys q.queue)
    → Near base acked
    → AllAhead acked (acknowledge q acked).1
unfolding acknowledge remove_where oldest_outstanding has
acknowledge-AllAhead base acked q [] e h na k g = absurd (ground (arith, rw (e, acknowledge) at g))
acknowledge-AllAhead base acked q (seq ∷ ks) e h na k g =
    let same : u32 acked ≡ acked = omega (arith, na.0) in
    let hs : AllNear base (seq ∷ ks) = rw e at h in
    let ns : Near base seq = hs seq (ground arith) in
    let first : u32 seq ≡ seq = omega (arith, ns.0) in
    let r = oldest_outstanding-HasOldest base seq ks ns (λ j t. hs j (ground arith)) in
    let found : oldest_outstanding none (keys q.queue) ≡ some r.found = rw (e, first) r.is_found in
    let below : (j : ℕ) → has (keys q.queue) j ≡ true → sub32 r.found base ≤ sub32 j base = λ j t.
      elim (Bool-cases (seq == j)) [
        | inl this ↦ same_distance base r.found seq j (ground arith) r.below_first
        | inr other ↦ r.below_all j (ground (arith, rw e at t))
      ] in
    elim (Bool-cases (leb half (sub32 (u32 acked) r.found))) [
      | inl stale ↦
          let there : has (keys q.queue) k ≡ true = rw (acknowledge, found, stale) at g in
          after_ack base r.found acked k r.near na (h k there) (below k there)
            (inl (ground (arith, same)))
      | inr live ↦
          let test : ℕ → Bool = λ j. leb (sub32 j r.found) (sub32 (u32 acked) r.found) in
          let left = rw (acknowledge, found, live) at g in
          let x = Laws.has-keys-delete_all q.queue (JsMap.keys_where (λ j v. test j) q.queue) k in
          let y = Laws.has-keys_where test q.queue k in
          let there : has (keys q.queue) k ≡ true = ground arith in
          let kept : test k ≡ false = ground arith in
          after_ack base r.found acked k r.near na (h k there) (below k there)
            (inr (ground (arith, same)))
    ]

-- All numbers that the first ACK leaves are ahead of it.
pub acknowledge_first-AllAhead :
    (base acked : ℕ) (q : RetransmitQueue)
    → AllNear base (keys q.queue)
    → Near base (u32 acked)
    → AllAhead (u32 acked) (acknowledge_range q none acked).1
unfolding acknowledge_range
acknowledge_first-AllAhead base acked q h n =
    acknowledge-AllAhead base (u32 acked) q (keys q.queue) refl h n
