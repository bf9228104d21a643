-- ===== src/JsSet/Laws.antt =====
-- Laws of the set operations: membership, size, and that values stay distinct.
use signalk_edge_link.Prelude.{
  ℕ, zero, suc, ◌+◌, ◌^◌, ltb, ◌≤◌, ◌<◌, ◌≡◌, refl, Bool, true, false, not, ◌&&◌, ◌||◌, List, [],
  ◌∷◌, ◌++◌, ◌==◌, length, All, arith,
}
use signalk_edge_link.Serial.{u32, sub32}
use signalk_edge_link.JsSet.{has, add, delete, keep, delete_all, Distinct}

has-append : (xs ys : List ℕ) (a : ℕ) → has (xs ++ ys) a ≡ (has xs a || has ys a)
unfolding has
has-append [] ys a = refl
has-append (x ∷ xs) ys a = ground (arith, has-append xs ys a)

pub has-add : (xs : List ℕ) (a b : ℕ) → has (add xs a) b ≡ ((a == b) || has xs b)
unfolding add has
has-add xs a b = ground (arith, has-append xs (a ∷ []) b, has-congr)
  where
    has-congr : a ≡ b → has xs a ≡ has xs b
    has-congr e = rw e

pub has-delete : (xs : List ℕ) (a b : ℕ) → has (delete xs a) b ≡ (not (a == b) && has xs b)
unfolding has delete
has-delete [] a b = ground arith
has-delete (x ∷ xs) a b = ground (arith, has-delete xs a b)

pub has-keep : (test : ℕ → Bool) (xs : List ℕ) (a : ℕ) → has (keep test xs) a ≡ (test a && has xs a)
unfolding has keep
has-keep test [] a = ground arith
has-keep test (x ∷ xs) a = ground (arith, has-keep test xs a, congr)
  where
    congr : x ≡ a → test x ≡ test a
    congr e = rw e

has-delete_all : (xs ds : List ℕ) (a : ℕ) → has (delete_all xs ds) a ≡ (has xs a && not (has ds a))
unfolding has delete_all
has-delete_all xs [] a = ground arith
has-delete_all xs (d ∷ ds) a = ground (arith, has-delete_all (delete xs d) ds a, has-delete xs d a)

-- Collecting the values that pass a test and deleting them leaves the others.
pub has-delete_kept :
    (test : ℕ → Bool) (xs : List ℕ) (a : ℕ)
    → has (delete_all xs (keep test xs)) a ≡ (has xs a && not (test a))
has-delete_kept test xs a = ground (arith, has-delete_all xs (keep test xs) a, has-keep test xs a)

pub length-delete-le : (xs : List ℕ) (a : ℕ) → length (delete xs a) ≤ length xs
unfolding delete
length-delete-le [] a = omega arith
length-delete-le (x ∷ xs) a = ground (arith, length-delete-le xs a)

pub length-delete-lt : (xs : List ℕ) (a : ℕ) → has xs a ≡ true → length (delete xs a) < length xs
unfolding has delete
length-delete-lt [] a h = absurd (ground arith)
length-delete-lt (x ∷ xs) a h = ground (arith, length-delete-lt xs a, length-delete-le xs a)

length-delete_all-le : (xs ds : List ℕ) → length (delete_all xs ds) ≤ length xs
unfolding delete_all
length-delete_all-le xs [] = omega arith
length-delete_all-le xs (d ∷ ds) =
    omega (arith, length-delete_all-le (delete xs d) ds, length-delete-le xs d)

Distinct-append : (xs : List ℕ) (a : ℕ) → Distinct xs → has xs a ≡ false → Distinct (xs ++ (a ∷ []))
unfolding has
Distinct-append [] a d h = (refl, tt)
Distinct-append (x ∷ xs) a d h = ground (arith, has-append xs (a ∷ []) x, Distinct-append xs a d.1)

pub Distinct-add : (xs : List ℕ) (a : ℕ) → Distinct xs → Distinct (add xs a)
unfolding add
Distinct-add xs a d = ground (arith, Distinct-append xs a d)

pub Distinct-delete : (xs : List ℕ) (a : ℕ) → Distinct xs → Distinct (delete xs a)
unfolding delete
Distinct-delete [] a d = tt
Distinct-delete (x ∷ xs) a d = ground (arith, Distinct-delete xs a d.1, has-delete xs a x)

pub Distinct-delete_all : (xs ds : List ℕ) → Distinct xs → Distinct (delete_all xs ds)
unfolding delete_all
Distinct-delete_all xs [] d = d
Distinct-delete_all xs (a ∷ ds) d = Distinct-delete_all (delete xs a) ds (Distinct-delete xs a d)

All-has-delete :
    (xs ks : List ℕ) (k : ℕ)
    → has ks k ≡ false
    → All (λ a. has xs a ≡ true) ks
    → All (λ a. has (delete xs k) a ≡ true) ks
unfolding has
All-has-delete xs [] k n h = tt
All-has-delete xs (a ∷ ks) k n h = ground (arith, has-delete xs k a, All-has-delete xs ks k)

-- Pigeonhole: distinct values that a set holds are no more than its size.
pub length-le_of_has :
    (ks xs : List ℕ) → Distinct ks → All (λ a. has xs a ≡ true) ks → length ks ≤ length xs
length-le_of_has [] xs d h = omega arith
length-le_of_has (k ∷ ks) xs d h = omega (
  arith,
  length-delete-lt xs k h.0,
  length-le_of_has ks (delete xs k) d.1 (All-has-delete xs ks k d.0 h.1),
)

pub delete_none : (xs : List ℕ) (a : ℕ) → has xs a ≡ false → delete xs a ≡ xs
unfolding has delete
delete_none [] a h = refl
delete_none (x ∷ xs) a h = ground (arith, delete_none xs a)

-- The `n` serial numbers from `a` on.
abbrev pub run_of : ℕ → ℕ → List ℕ
run_of a zero = []
run_of a (suc n) = u32 a ∷ run_of (a + 1) n

pub has-run_of :
    (a n x : ℕ) → x < 2 ^ 32 → n ≤ 2 ^ 32 → has (run_of a n) x ≡ ltb (sub32 x (u32 a)) n
unfolding has
has-run_of a zero x h k = ground arith
has-run_of a (suc n) x h k = ground (arith, has-run_of (a + 1) n x)

pub Distinct-run_of : (a n : ℕ) → n ≤ 2 ^ 32 → Distinct (run_of a n)
Distinct-run_of a zero h = tt
Distinct-run_of a (suc n) h =
    (ground (arith, has-run_of (a + 1) n (u32 a)), Distinct-run_of (a + 1) n (omega arith))

pub length-run_of : (a n : ℕ) → length (run_of a n) ≡ n
length-run_of a zero = refl
length-run_of a (suc n) = omega (arith, length-run_of (a + 1) n)

pub All-has-run_of :
    (xs : List ℕ) (a n : ℕ)
    → ((i : ℕ) → i < n → has xs (u32 (a + i)) ≡ true)
    → All (λ x. has xs x ≡ true) (run_of a n)
All-has-run_of xs a zero h = tt
All-has-run_of xs a (suc n) h =
    let z : a + 0 ≡ a = omega arith in
    (
      rw z at (h 0 (omega arith)),
      All-has-run_of xs (a + 1) n
          (λ i l. let e : a + suc i ≡ a + 1 + i = omega arith in rw e at (h (suc i) (omega arith))),
    )

-- Every value of a set of distinct values lies in a run of n numbers: the set has at most n.
pub All-of_has : (P : ℕ → Type 0) (xs : List ℕ) → ((a : ℕ) → has xs a ≡ true → P a) → All P xs
unfolding has
All-of_has P [] h = tt
All-of_has P (x ∷ xs) h = (h x (ground arith), All-of_has P xs (λ a m. h a (ground arith)))
