-- ===== src/CircularBuffer/History.antt =====
-- A buffer of n slots shows the last n items that were pushed, oldest first.
use signalk_edge_link.Prelude.{
  ℕ, suc, ◌+◌, ◌-◌, ◌%◌, ◌≤◌, ◌<◌, ◌≡◌, refl, sym, ap, ◌≢◌, min, ◌∙◌, false, ◌||◌, Option, none,
  some, List, [], ◌∷◌, ◌++◌, map, leb, ◌==◌, if◌then◌else◌, arith, inl, inr, Bool-cases, length,
  set, take, drop, replicate, length-append, length-set, length-drop, length-replicate, take-set,
  drop-set, take_all, drop_all, drop-drop, drop-append, drop-map, append_assoc, append-nil,
}
use mathlib.Core.List.{map-append}
use native.Mathlib.Nat.{mod-eq_of_lt}
use signalk_edge_link.CircularBuffer.{CircularBuffer, create, push, to_array, length_of}

mod_end : (i n : ℕ) → i + 1 ≡ n → (i + 1) % n ≡ 0
mod_end i n h = grind arith

mod_step : (i n : ℕ) → i + 1 < n → (i + 1) % n ≡ suc i
mod_step i n h = grind (arith, mod-eq_of_lt)

suc_ne_zero : (i : ℕ) → (suc i == 0) ≡ false
suc_ne_zero i = ground arith

module _ {ℓ} {A : Type ℓ} where
  pub record IsValid (b : CircularBuffer A) : Type 0 where
    pub slots : length b.buffer ≡ b.size
    pub inside : b.index < b.size

  pub push-IsValid : (b : CircularBuffer A) (x : A) → IsValid b → IsValid (push b x)
  unfolding push
  push-IsValid b x v = record {
    slots = omega (arith, length-set b.buffer b.index (some x), v.slots);
    inside = omega (arith, v.inside);
  }

  pub push-size : (b : CircularBuffer A) (x : A) → (push b x).size ≡ b.size
  unfolding push
  push-size b x = refl

  -- Dropping the oldest of a filled buffer, and the write of the new item.
  drop-rotated :
      (i : ℕ) (xs : List (Option A))
      → i < length xs
      → drop 1 (drop i xs ++ take i xs) ≡ drop (suc i) xs ++ take i xs
  drop-rotated i xs h =
      drop-append 1 (drop i xs) (take i xs) (omega (arith, length-drop i xs))
      ∙ ap (λ l. l ++ take i xs) (drop-drop i xs)

  set_last :
      (i : ℕ) (xs : List (Option A)) (v : Option A)
      → suc i ≡ length xs
      → set xs i v ≡ take i xs ++ (v ∷ [])
  set_last i xs v h =
      sym (take_all (suc i) (set xs i v) (omega (arith, length-set xs i v)))
      ∙ take-set i xs v (omega arith)

  -- A push appends its item, and drops the oldest one from a buffer that is filled.
  pub to_array-push :
      (b : CircularBuffer A) (x : A)
      → IsValid b
      → to_array (push b x)
        ≡ (if b.filled then drop 1 (to_array b) else to_array b) ++ (some x ∷ [])
  unfolding push to_array
  to_array-push b x v = elim (Bool-cases (b.index + 1 == b.size)) [
    | inl last ↦
        let e : (b.index + 1) % b.size ≡ 0 = mod_end b.index b.size (ground arith) in
        let w = set_last b.index b.buffer (some x) (ground (arith, v.slots)) in
        let d = drop_all (suc b.index) b.buffer (ground (arith, v.slots)) in
        rw e (elim (Bool-cases b.filled) [
          | inl f ↦ rw (
            f,
            append-nil,
            w,
            drop-rotated b.index b.buffer (omega (arith, v.slots, v.inside)),
            d,
          )
          | inr f ↦ rw (f, append-nil, w)
        ])
    | inr more ↦
        let e : (b.index + 1) % b.size ≡ suc b.index =
          mod_step b.index b.size (ground (arith, v.inside)) in
        let w = take-set b.index b.buffer (some x) (omega (arith, v.slots, v.inside)) in
        rw e (elim (Bool-cases b.filled) [
          | inl f ↦ rw (
            f,
            suc_ne_zero b.index,
            w,
            drop-set,
            drop-rotated b.index b.buffer (omega (arith, v.slots, v.inside)),
            append_assoc,
          )
          | inr f ↦ rw (f, suc_ne_zero b.index, w)
        ])
  ]

  pub filled-push :
      (b : CircularBuffer A) (x : A)
      → IsValid b
      → (push b x).filled ≡ (b.filled || (b.index + 1 == b.size))
  unfolding push
  filled-push b x v = elim (Bool-cases (b.index + 1 == b.size)) [
    | inl last ↦ ground (arith, mod_end b.index b.size, Bool-cases b.filled)
    | inr more ↦ ground (arith, mod_step b.index b.size, v.inside, Bool-cases b.filled)
  ]

  -- The buffer after `xs` was pushed into a new one of `n` slots.
  record Shows (n : ℕ) (b : CircularBuffer A) (xs : List A) : Type ℓ where
    valid : IsValid b
    size : b.size ≡ n
    filled : b.filled ≡ leb n (length xs)
    index : b.filled ≡ false → b.index ≡ length xs
    items : to_array b ≡ map some (drop (length xs - n) xs)

  index-push :
      (b : CircularBuffer A) (x : A)
      → IsValid b
      → b.index + 1 ≢ b.size
      → (push b x).index ≡ b.index + 1
  unfolding push
  index-push b x v h = mod_step b.index b.size (omega (arith, v.inside)) ∙ omega arith

  module _ (n : ℕ) (b : CircularBuffer A) (xs : List A) (x : A) (s : Shows n b xs) where
    length-more : length (xs ++ (x ∷ [])) ≡ suc (length xs)
    length-more = length-append xs (x ∷ []) ∙ omega arith

    filled-more : (push b x).filled ≡ leb n (length (xs ++ (x ∷ [])))
    filled-more =
        filled-push b x s.valid
        ∙ rw length-more (ground (arith, s.filled, s.index, s.size, s.valid.inside))

    index-more : (push b x).filled ≡ false → (push b x).index ≡ length (xs ++ (x ∷ []))
    index-more h = rw length-more (
        ground (
          arith,
          s.filled,
          s.index,
          s.size,
          s.valid.inside,
          filled-push b x s.valid,
          index-push b x s.valid,
        ))

    shift :
        (k : ℕ)
        → suc k ≤ length xs
        → drop 1 (map some (drop k xs)) ++ (some x ∷ []) ≡ map some (drop (suc k) (xs ++ (x ∷ [])))
    shift k h = rw (
      drop-append (suc k) xs (x ∷ []) h,
      map-append some (drop (suc k) xs) (x ∷ []),
      ← drop-drop k xs,
      ← drop-map 1 some (drop k xs),
    )

    items-more :
        to_array (push b x) ≡ map some (drop (length (xs ++ (x ∷ [])) - n) (xs ++ (x ∷ [])))
    items-more = elim (Bool-cases b.filled) [
      | inl f ↦
          let k : suc (length xs) - n ≡ suc (length xs - n) = ground (arith, s.filled) in
          rw (length-more, k, to_array-push b x s.valid, s.items, f)
            (shift (length xs - n) (ground (arith, s.filled, s.size, s.valid.inside)))
      | inr f ↦
          let k : suc (length xs) - n ≡ 0 = ground (arith, s.filled) in
          let j : length xs - n ≡ 0 = omega arith in
          rw (length-more, k, to_array-push b x s.valid, s.items, f, j)
            (sym (map-append some xs (x ∷ [])))
    ]

    push-Shows : Shows n (push b x) (xs ++ (x ∷ []))
    push-Shows = record {
      valid = push-IsValid b x s.valid;
      size = push-size b x ∙ s.size;
      filled = filled-more;
      index = index-more;
      items = items-more;
    }

  -- A buffer after a series of pushes.
  pub push_all : CircularBuffer A → List A → CircularBuffer A
  push_all b [] = b
  push_all b (x ∷ xs) = push_all (push b x) xs

  push_all-Shows :
      (n : ℕ) (b : CircularBuffer A) (xs ys : List A)
      → Shows n b xs
      → Shows n (push_all b ys) (xs ++ ys)
  unfolding push_all
  push_all-Shows n b xs [] s = rw append-nil s
  push_all-Shows n b xs (y ∷ ys) s =
      let e : (xs ++ (y ∷ [])) ++ ys ≡ xs ++ (y ∷ ys) = append_assoc xs (y ∷ []) ys in
      rw e at (push_all-Shows n (push b y) (xs ++ (y ∷ [])) ys (push-Shows n b xs y s))

  create-Shows : (n : ℕ) (b : CircularBuffer A) → create n ≡ some b → Shows n b []
  unfolding create to_array
  create-Shows n b h = elim (Bool-cases (n == 0)) [
    | inl z ↦ absurd (ground arith)
    | inr p ↦
        let fresh : CircularBuffer A = record {
          buffer = replicate n none;
          size = n;
          index = 0;
          filled = false;
        } in
        let e : fresh ≡ b = ground arith in
        rw (← e) (record {
          valid = record { slots = length-replicate n none; inside = ground arith };
          size = refl;
          filled = ground arith;
          index = λ f. refl;
          items = rw (drop_all {A = A} (0 - n) [] (omega arith)) empty;
        })
  ]
    where
      empty :
          to_array {A = A}
            (record { buffer = replicate n none; size = n; index = 0; filled = false })
          ≡ []
      empty = refl

  -- After any pushes into a new buffer of n slots, `toArray` is the last n items in the order they
  -- were pushed (all of them, while there are fewer), and `length` is their number.
  pub to_array-push_all :
      (n : ℕ) (b : CircularBuffer A) (xs : List A)
      → create n ≡ some b
      → (to_array (push_all b xs) ≡ map some (drop (length xs - n) xs))
        × (length_of (push_all b xs) ≡ min n (length xs))
  unfolding length_of
  to_array-push_all n b xs h =
      let s = push_all-Shows n b [] xs (create-Shows n b h) in
      (s.items, ground (arith, s.filled, s.index, s.size, s.valid.inside))
