-- ===== src/ReplayWindow/Exact.antt =====
-- The replay window against a specification over unbounded packet numbers that forgets nothing.
use signalk_edge_link.Prelude.{
  ℕ, ◌+◌, ◌^◌, ◌<◌, ◌≤◌, ◌≡◌, refl, ap, ap₂, ◌∙◌, max, Bool, true, false, not, ◌&&◌, ◌||◌, some,
  List, [], ◌∷◌, arith, ltb, leb, if◌then◌else◌, inl, inr, Bool-cases, Option-cases, All,
}
use signalk_edge_link.Serial.{half, u32, sub32}
use signalk_edge_link.Serial.Laws.{u32-ne}
use signalk_edge_link.JsSet.{has, add}
use signalk_edge_link.JsSet.Laws.{has-add, has-delete_kept}
use signalk_edge_link.ReplayWindow.{ReplayWindow, create, accept, prune_if_needed, verdicts}
use signalk_edge_link.ReplayWindow.Safety.{
  InReach, Reach, has-prune, prune_fields, accept_ahead, accept_behind,
}

-- A number is let through if it is above all before it, or at most `size - 1` below the highest and
-- not let through yet.
abbrev pub fresh : ℕ → ℕ → List ℕ → ℕ → Bool
fresh size top taken n = ltb top n || (ltb top (n + size) && not (has taken n))

-- The verdicts of an observer who knows the highest number and every number let through so far.
pub observer : ℕ → ℕ → List ℕ → List ℕ → List Bool
observer size top taken [] = []
observer size top taken (n ∷ ns) =
    let v = fresh size top taken n in
    v ∷ observer size (max top n) (if v then n ∷ taken else taken) ns

-- Numbers of one round of the uint32 space, starting anywhere.
abbrev InRound : ℕ → ℕ → Type 0
InRound base n = (base ≤ n) × (n < base + 2 ^ 32)

pub record Mirrors (base : ℕ) (w : ReplayWindow) (top : ℕ) (taken : List ℕ) : Type 0 where
  pub at : w.highest ≡ some (u32 top)
  pub wide : w.size ≤ half
  pub round : InRound base top
  pub same :
      (n : ℕ) → InRound base n → n ≤ top → top < n + w.size → has w.seen (u32 n) ≡ has taken n
  pub below : (n : ℕ) → has taken n ≡ true → n ≤ top
  pub above : (n : ℕ) → InRound base n → top < n → has w.seen (u32 n) ≡ false

-- Pruning adds nothing.
has-prune_false :
    (w : ReplayWindow) (x : ℕ) → has w.seen x ≡ false → has (prune_if_needed w).seen x ≡ false
unfolding prune_if_needed
has-prune_false w x h = elim (Option-cases w.highest) [
  | inl e ↦ rw (e, prune_if_needed) h
  | inr (top, e) ↦
      rw (e, prune_if_needed)
        (ground (arith, has-delete_kept (λ s. leb w.size (sub32 top s)) w.seen x))
]

module _ (base : ℕ) (w : ReplayWindow) (top : ℕ) (taken : List ℕ) (c : Mirrors base w top taken)
    (n : ℕ) (i : InRound base n) (r : InReach top n) where
  abbrev w_ahead : ReplayWindow
  w_ahead = record w { highest = some (u32 n); seen = add w.seen (u32 n) }

  ahead_same :
      top < n
      → (m : ℕ) → InRound base m
      → m ≤ n
      → n < m + w.size
      → has (add w.seen (u32 n)) (u32 m) ≡ has (n ∷ taken) m
  unfolding has
  ahead_same h m j k l = ground (
    arith,
    has-add w.seen (u32 n) (u32 m),
    c.same m,
    c.above m,
    c.below m,
    Bool-cases (has taken m),
    u32-ne m n,
  )

  ahead_Mirrors : top < n → Mirrors base (prune_if_needed w_ahead) n (n ∷ taken)
  unfolding has
  ahead_Mirrors h = record {
    at = ground (arith, prune_fields w_ahead);
    wide = ground (arith, prune_fields w_ahead, c.wide);
    round = i;
    same = λ m j k l.
        ground (arith, has-prune w_ahead n m, prune_fields w_ahead, ahead_same h m j, c.wide);
    below = λ m t. ground (arith, c.below m);
    above = λ m j k.
        has-prune_false w_ahead (u32 m)
          (ground (arith, has-add w.seen (u32 n) (u32 m), c.above m, u32-ne n m));
  }

  behind_Mirrors :
      n ≤ top
      → top < n + w.size
      → Mirrors base (record w { seen = add w.seen (u32 n) }) top (n ∷ taken)
  unfolding has
  behind_Mirrors h l = record {
    at = c.at;
    wide = c.wide;
    round = c.round;
    same =
        λ m j k q. ground (arith, has-add w.seen (u32 n) (u32 m), c.same m, u32-ne m n, u32-ne n m);
    below = λ m t. ground (arith, c.below m);
    above = λ m j k. ground (arith, has-add w.seen (u32 n) (u32 m), c.above m, u32-ne n m);
  }

  accept-fresh :
      ((accept w n).0 ≡ fresh w.size top taken n)
      × Mirrors base
          (accept w n).1
          (max top n)
          (if fresh w.size top taken n then n ∷ taken else taken)
      × ((accept w n).1.size ≡ w.size)
  accept-fresh = elim (Bool-cases (ltb top n)) [
    | inl e ↦
        let h : top < n = ground arith in
        let m : max top n ≡ n = omega arith in
        rw (accept_ahead w top n c.at r h, e, m) (refl, ahead_Mirrors h, (prune_fields w_ahead).1)
    | inr e ↦
        let h : n ≤ top = ground arith in
        let m : max top n ≡ top = omega arith in
        rw (m, e)
          (elim (Bool-cases (ltb top (n + w.size) && not (has taken n))) [
            | inl new ↦
                let q : accept w n ≡ (true, record w { seen = add w.seen (u32 n) }) =
                  ground (arith, accept_behind w top n c.at r h, c.same n i h) in
                rw (new, q) (refl, behind_Mirrors h (ground arith), refl)
            | inr old ↦
                let q : accept w n ≡ (false, w) =
                  ground (arith, accept_behind w top n c.at r h, c.same n i h) in
                rw (old, q) (refl, c, refl)
          ])
  ]

verdicts-observer :
    (base : ℕ) (ns : List ℕ) (w : ReplayWindow) (top : ℕ) (taken : List ℕ)
    → Mirrors base w top taken
    → All (InRound base) ns
    → Reach top ns
    → verdicts w ns ≡ observer w.size top taken ns
unfolding verdicts observer
verdicts-observer base [] w top taken c i r = refl
verdicts-observer base (n ∷ ns) w top taken c i r =
    let (v, c', s) = accept-fresh base w top taken c n i.0 r.0 in
    ap₂ ◌∷◌ v (
      verdicts-observer base ns (accept w n).1 (max top n) _ c' i.1 r.1
      ∙ ap
          (λ size.
            observer size (max top n) (if fresh w.size top taken n then n ∷ taken else taken) ns)
          s)

create-Mirrors :
    (base size n : ℕ)
    → 0 < size
    → size ≤ half
    → InRound base n
    → Mirrors base (accept (create size) n).1 n (n ∷ [])
      × ((accept (create size) n).0 ≡ true)
      × ((accept (create size) n).1.size ≡ size)
unfolding accept create has
create-Mirrors base size n p h i = (
  record {
    at = refl;
    wide = ground arith;
    round = i;
    same = λ m j k l. ground (arith, u32-ne m n);
    below = λ m t. ground arith;
    above = λ m j k. ground (arith, u32-ne n m);
  },
  refl,
  ground arith,
)

-- Over a stream of datagrams whose numbers stay within one round of the uint32 space and within
-- 2 ^ 31 of the highest number before them, a new window of 1 to 2 ^ 31 slots gives exactly the
-- verdicts of an observer that never forgets a number: let through what is above all before it, or
-- less than `size` below the highest and not let through yet; the first datagram is let through.
pub verdicts-exact :
    (base size first : ℕ) (ns : List ℕ)
    → 0 < size
    → size ≤ half
    → InRound base first
    → All (InRound base) ns
    → Reach first ns
    → verdicts (create size) (first ∷ ns) ≡ true ∷ observer size first (first ∷ []) ns
unfolding verdicts
verdicts-exact base size first ns p h i j r =
    let (c, ok, s) = create-Mirrors base size first p h i in
    ap₂ ◌∷◌ ok (
      verdicts-observer base ns _ first _ c j r
      ∙ ap (λ (k : ℕ). observer k first (first ∷ []) ns) s)
