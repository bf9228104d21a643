-- ===== src/ReplayWindow/Safety.antt =====
-- No packet number passes the replay window twice. Numbers are unbounded here, as the sender counts
-- them; the window sees each modulo 2 ^ 32.
use signalk_edge_link.Prelude.{
  ℕ, ◌+◌, ◌-◌, ◌<◌, ◌≤◌, ◌≡◌, refl, ap, max, Bool, true, false, Option, none, some, List, [], ◌∷◌,
  arith, ltb, leb, if◌then◌else◌, ◌⊎◌, inl, inr, Bool-cases,
}
use signalk_edge_link.Serial.{half, u32, sub32}
use signalk_edge_link.Serial.Laws.{sub32-u32, is_ahead-u32}
use signalk_edge_link.JsSet.{has, add, Distinct}
use signalk_edge_link.JsSet.Laws.{has-add, has-delete_kept}
use signalk_edge_link.ReplayWindow.{
  ReplayWindow, create, accept, accept_above, prune_if_needed, accepted,
}

-- A number within half the number space of the highest one so far.
abbrev pub InReach : ℕ → ℕ → Type 0
InReach top n = (n < top + half) × (top < n + half)

-- Each number of a stream is within reach of the highest before it.
abbrev pub Reach : ℕ → List ℕ → Type 0
Reach top [] = Unit
Reach top (n ∷ ns) = InReach top n × Reach (max top n) ns

-- The window remembers all of `taken` that it could still be asked about.
pub record Covers (w : ReplayWindow) (top : ℕ) (taken : List ℕ) : Type 0 where
  pub at : w.highest ≡ some (u32 top)
  pub wide : w.size ≤ half
  pub below : (n : ℕ) → has taken n ≡ true → n ≤ top
  pub kept : (n : ℕ) → has taken n ≡ true → top < n + w.size → has w.seen (u32 n) ≡ true

-- Pruning forgets no number in the window.
pub has-prune :
    (w : ReplayWindow) (top n : ℕ)
    → w.highest ≡ some (u32 top)
    → w.size ≤ half
    → n ≤ top
    → top < n + w.size
    → has (prune_if_needed w).seen (u32 n) ≡ has w.seen (u32 n)
unfolding prune_if_needed
has-prune w top n at wide h k =
    ground
      (arith, has-delete_kept (λ s. leb w.size (sub32 (u32 top) s)) w.seen (u32 n), sub32-u32 top n)

pub prune_fields :
    (w : ReplayWindow)
    → ((prune_if_needed w).highest ≡ w.highest) × ((prune_if_needed w).size ≡ w.size)
unfolding prune_if_needed
prune_fields w = ground arith

-- Both outcomes of a datagram within reach, in the unbounded numbers.
abbrev Verdict : ReplayWindow → ℕ → List ℕ → ℕ → Type 0
Verdict w top taken n =
    (((accept w n).0 ≡ true)
      × (has taken n ≡ false)
      × Covers (accept w n).1 (max top n) (n ∷ taken))
    ⊎ (((accept w n).0 ≡ false) × (n ≤ top) × ((accept w n).1 ≡ w))

pub accept_ahead :
    (w : ReplayWindow) (top n : ℕ)
    → w.highest ≡ some (u32 top)
    → InReach top n
    → top < n
    → accept w n
      ≡ (true, prune_if_needed (record w { highest = some (u32 n); seen = add w.seen (u32 n) }))
unfolding accept
accept_ahead w top n at r h = ground (arith, is_ahead-u32 n top)

pub accept_behind :
    (w : ReplayWindow) (top n : ℕ)
    → w.highest ≡ some (u32 top)
    → InReach top n
    → n ≤ top
    → accept w n ≡ (
        if leb w.size (top - n)
        then (false, w)
        else if has w.seen (u32 n)
        then (false, w)
        else (true, record w { seen = add w.seen (u32 n) }))
unfolding accept
accept_behind w top n at r h = ground (arith, is_ahead-u32 n top, sub32-u32 top n)

module _ (w : ReplayWindow) (top : ℕ) (taken : List ℕ) (c : Covers w top taken) (n : ℕ)
    (r : InReach top n) where
  ahead_kept :
      top < n
      → (m : ℕ) → has (n ∷ taken) m ≡ true
      → n < m + w.size
      → has (add w.seen (u32 n)) (u32 m) ≡ true
  unfolding has
  ahead_kept h m t k = ground (arith, has-add w.seen (u32 n) (u32 m), c.kept m)

  ahead_Verdict : top < n → Verdict w top taken n
  unfolding has
  ahead_Verdict h = rw (accept_ahead w top n c.at r h) (inl (refl, fresh, covers))
    where
      fresh : has taken n ≡ false
      fresh = ground (arith, Bool-cases (has taken n), c.below n)

      w' : ReplayWindow
      w' = record w { highest = some (u32 n); seen = add w.seen (u32 n) }

      at' : (prune_if_needed w').highest ≡ some (u32 (max top n))
      at' = ground (arith, prune_fields w')

      covers : Covers (prune_if_needed w') (max top n) (n ∷ taken)
      covers = record {
        at = at';
        wide = ground (arith, prune_fields w', c.wide);
        below = λ m t. ground (arith, c.below m);
        kept =
            λ m t k. ground (arith, has-prune w' n m, prune_fields w', c.below m, ahead_kept h m t);
      }

  behind_Verdict : n ≤ top → Verdict w top taken n
  unfolding has
  behind_Verdict h = ground (arith, accept_behind w top n c.at r h, covers, fresh)
    where
      fresh : top < n + w.size → has w.seen (u32 n) ≡ false → has taken n ≡ false
      fresh k e = ground (arith, Bool-cases (has taken n), c.kept n)

      covers : Covers (record w { seen = add w.seen (u32 n) }) (max top n) (n ∷ taken)
      covers = record {
        at = ground (arith, c.at);
        wide = c.wide;
        below = λ m t. ground (arith, c.below m);
        kept = λ m t k. ground (arith, has-add w.seen (u32 n) (u32 m), c.kept m);
      }

  accept-Verdict : Verdict w top taken n
  accept-Verdict = elim (Bool-cases (ltb top n)) [
    | inl e ↦ ahead_Verdict (ground arith)
    | inr e ↦ behind_Verdict (ground arith)
  ]

Distinct-accepted :
    (ns : List ℕ) (w : ReplayWindow) (top : ℕ) (taken : List ℕ)
    → Covers w top taken
    → Reach top ns
    → Distinct (accepted w ns) × ((m : ℕ) → has (accepted w ns) m ≡ true → has taken m ≡ false)
unfolding accepted has
Distinct-accepted [] w top taken c r = (tt, λ m h. cc)
Distinct-accepted (n ∷ ns) w top taken c r = elim (accept-Verdict w top taken c n r.0) [
  | inl (ok, fresh, c') ↦
      let (d, apart) = Distinct-accepted ns _ _ _ c' r.1 in
      rw ok (
        (ground (arith, apart n, Bool-cases (has (accepted (accept w n).1 ns) n)), d),
        λ m h. ground (arith, fresh, apart m),
      )
  | inr (no_, low, same) ↦
      let top' : max top n ≡ top = omega arith in
      let c' : Covers (accept w n).1 (max top n) taken = rw (same, top') c in
      rw no_ (Distinct-accepted ns _ _ taken c' r.1)
]

create-Covers :
    (size n : ℕ)
    → size ≤ half
    → ((accept (create size) n).0 ≡ true) × Covers (accept (create size) n).1 n (n ∷ [])
unfolding accept create has
create-Covers size n h = (
  refl,
  record {
    at = refl;
    wide = ground arith;
    below = λ m t. ground arith;
    kept = λ m t k. ground arith;
  },
)

-- Whatever stream of datagrams arrives, replays included, a new window lets no packet number through
-- twice, as long as each number is within 2 ^ 31 of the highest number before it.
pub accepted-Distinct :
    (size first : ℕ) (ns : List ℕ)
    → size ≤ half
    → Reach first ns
    → Distinct (accepted (create size) (first ∷ ns))
unfolding accepted has
accepted-Distinct size first ns h r =
    let (ok, c) = create-Covers size first h in
    let (d, apart) = Distinct-accepted ns _ _ _ c r in
    let later = accepted (accept (create size) first).1 ns in
    let fresh : has later first ≡ false =
      ground (arith, apart first, Bool-cases (has later first)) in
    rw ok (fresh, d)

-- The window sees a number modulo 2 ^ 32.
pub accept-u32 : (w : ReplayWindow) (n : ℕ) → accept w (u32 n) ≡ accept w n
unfolding accept
accept-u32 w n =
    let same : u32 (u32 n) ≡ u32 n = omega arith in
    ap
      (λ k. elim w.highest as (λ (o : Option ℕ). Bool × ReplayWindow) [
        | none ↦ (true, record w { highest = some k; seen = k ∷ [] })
        | some top ↦ accept_above w top k
      ])
      same
