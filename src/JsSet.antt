-- ===== src/JsSet.antt =====
-- A JavaScript `Set<number>`: its values in insertion order, each once. `add` appends a value that
-- is not there, and `delete` takes a value out.
pub mod Laws
use signalk_edge_link.Prelude.{
  ℕ, ◌≡◌, Bool, true, false, not, ◌||◌, List, [], ◌∷◌, ◌++◌, ◌==◌, if◌then◌else◌,
}

unfoldable pub has : List ℕ → ℕ → Bool
has [] a = false
has (x ∷ xs) a = x == a || has xs a

unfoldable pub add : List ℕ → ℕ → List ℕ
add xs a = if has xs a then xs else xs ++ (a ∷ [])

unfoldable pub delete : List ℕ → ℕ → List ℕ
delete [] a = []
delete (x ∷ xs) a = let rest = delete xs a in if x == a then rest else x ∷ rest

-- The values that pass a test, in order: `for (const s of set) if (test(s)) list.push(s)`.
unfoldable pub keep : (ℕ → Bool) → List ℕ → List ℕ
keep test [] = []
keep test (x ∷ xs) = let rest = keep test xs in if test x then x ∷ rest else rest

-- `for (const s of list) set.delete(s)`
unfoldable pub delete_all : List ℕ → List ℕ → List ℕ
delete_all xs [] = xs
delete_all xs (d ∷ ds) = delete_all (delete xs d) ds

abbrev pub Distinct : List ℕ → Type 0
Distinct [] = Unit
Distinct (x ∷ xs) = (has xs x ≡ false) × Distinct xs
