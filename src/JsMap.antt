-- ===== src/JsMap.antt =====
-- A JavaScript `Map` with number keys: its entries in insertion order, each key once. `set` writes a
-- key in place or appends it, and `delete` takes its entry out.
pub mod Laws
use signalk_edge_link.Prelude.{
  ℕ, ◌≡◌, Bool, true, false, Option, none, some, List, [], ◌∷◌, map, ◌==◌, if◌then◌else◌,
}
use signalk_edge_link.JsSet.{Distinct}

module _ {ℓ} {V : Type ℓ} where
  unfoldable pub get : List (ℕ × V) → ℕ → Option V
  get [] k = none
  get ((j, v) ∷ m) k = if j == k then some v else get m k

  unfoldable pub set : List (ℕ × V) → ℕ → V → List (ℕ × V)
  set [] k v = (k, v) ∷ []
  set ((j, w) ∷ m) k v = let rest = set m k v in if j == k then (j, v) ∷ m else (j, w) ∷ rest

  unfoldable pub delete : List (ℕ × V) → ℕ → List (ℕ × V)
  delete [] k = []
  delete ((j, v) ∷ m) k = let rest = delete m k in if j == k then rest else (j, v) ∷ rest

  -- `for (const k of list) map.delete(k)`
  unfoldable pub delete_all : List (ℕ × V) → List ℕ → List (ℕ × V)
  delete_all m [] = m
  delete_all m (k ∷ ks) = delete_all (delete m k) ks

  unfoldable pub keys : List (ℕ × V) → List ℕ
  keys [] = []
  keys ((k, v) ∷ m) = k ∷ keys m

  -- `for (const [k, v] of map) if (test(k, v)) list.push(k)`
  unfoldable pub keys_where : (ℕ → V → Bool) → List (ℕ × V) → List ℕ
  keys_where test [] = []
  keys_where test ((k, v) ∷ m) = let rest = keys_where test m in if test k v then k ∷ rest else rest

  -- The entries that fail a test.
  unfoldable pub reject : (ℕ → V → Bool) → List (ℕ × V) → List (ℕ × V)
  reject test [] = []
  reject test ((k, v) ∷ m) = let rest = reject test m in if test k v then rest else (k, v) ∷ rest
