-- ===== src/JsMap/Laws.antt =====
-- Laws of the map operations.
use signalk_edge_link.Prelude.{
  ℕ, suc, ◌+◌, ◌≤◌, ◌≡◌, refl, ap, ◌∙◌, Bool, true, false, not, ◌&&◌, ◌||◌, Option, none, some,
  List, [], ◌∷◌, ◌==◌, if◌then◌else◌, length, arith, Bool-cases, inl, inr, ==_iff,
}
use signalk_edge_link.JsSet.{has, Distinct}
use signalk_edge_link.JsMap.{get, set, delete, delete_all, keys, keys_where, reject}

module _ {ℓ} {V : Type ℓ} where
  pub get-set :
      (m : List (ℕ × V)) (k : ℕ) (v : V) (j : ℕ)
      → get (set m k v) j ≡ (if k == j then some v else get m j)
  unfolding get set
  get-set [] k v j = refl
  get-set ((i, w) ∷ m) k v j = ground (arith, get-set m k v j)

  pub get-delete :
      (m : List (ℕ × V)) (k j : ℕ) → get (delete m k) j ≡ (if k == j then none else get m j)
  unfolding get delete
  get-delete [] k j = ground arith
  get-delete ((i, w) ∷ m) k j = ground (arith, get-delete m k j)

  pub length-set : (m : List (ℕ × V)) (k : ℕ) (v : V) → length (set m k v) ≤ suc (length m)
  unfolding set
  length-set [] k v = omega arith
  length-set ((i, w) ∷ m) k v = ground (arith, length-set m k v)

  -- A key that is there is written in place.
  pub length-set_old :
      (m : List (ℕ × V)) (k : ℕ) (v : V) → has (keys m) k ≡ true → length (set m k v) ≡ length m
  unfolding set has keys
  length-set_old [] k v h = absurd (ground arith)
  length-set_old ((i, w) ∷ m) k v h = ground (arith, length-set_old m k v)

  pub has-keys-set :
      (m : List (ℕ × V)) (k : ℕ) (v : V) (j : ℕ)
      → has (keys (set m k v)) j ≡ ((k == j) || has (keys m) j)
  unfolding set has keys
  has-keys-set [] k v j = refl
  has-keys-set ((i, w) ∷ m) k v j = ground (arith, has-keys-set m k v j)

  pub has-keys-delete :
      (m : List (ℕ × V)) (k j : ℕ) → has (keys (delete m k)) j ≡ (not (k == j) && has (keys m) j)
  unfolding delete has keys
  has-keys-delete [] k j = ground arith
  has-keys-delete ((i, w) ∷ m) k j = ground (arith, has-keys-delete m k j)

  pub Distinct-keys-set :
      (m : List (ℕ × V)) (k : ℕ) (v : V) → Distinct (keys m) → Distinct (keys (set m k v))
  unfolding set keys has
  Distinct-keys-set [] k v d = (refl, tt)
  Distinct-keys-set ((i, w) ∷ m) k v d =
      ground (arith, Distinct-keys-set m k v d.1, has-keys-set m k v i)

  pub Distinct-keys-delete :
      (m : List (ℕ × V)) (k : ℕ) → Distinct (keys m) → Distinct (keys (delete m k))
  unfolding delete keys
  Distinct-keys-delete [] k d = tt
  Distinct-keys-delete ((i, w) ∷ m) k d =
      ground (arith, Distinct-keys-delete m k d.1, has-keys-delete m k i)

  pub delete_none : (m : List (ℕ × V)) (k : ℕ) → has (keys m) k ≡ false → delete m k ≡ m
  unfolding delete keys has
  delete_none [] k h = refl
  delete_none ((i, w) ∷ m) k h = ground (arith, delete_none m k)

  pub length-delete :
      (m : List (ℕ × V)) (k : ℕ)
      → Distinct (keys m)
      → has (keys m) k ≡ true
      → suc (length (delete m k)) ≡ length m
  unfolding delete keys has
  length-delete [] k d h = absurd (ground arith)
  length-delete ((i, w) ∷ m) k d h = elim (Bool-cases (i == k)) [
    | inl e ↦
        let n : has (keys m) k ≡ false = ground (arith, d.0) in ground (arith, delete_none m k n)
    | inr e ↦ ground (arith, length-delete m k d.1)
  ]

  has-keys_where-le :
      (test : ℕ → V → Bool) (m : List (ℕ × V)) (k : ℕ)
      → has (keys m) k ≡ false
      → has (keys_where test m) k ≡ false
  unfolding keys keys_where has
  has-keys_where-le test [] k h = refl
  has-keys_where-le test ((i, w) ∷ m) k h = ground (arith, has-keys_where-le test m k)

  delete_all-cons :
      (m : List (ℕ × V)) (k : ℕ) (v : V) (ks : List ℕ)
      → has ks k ≡ false
      → delete_all ((k, v) ∷ m) ks ≡ (k, v) ∷ delete_all m ks
  unfolding delete_all delete has
  delete_all-cons m k v [] h = refl
  delete_all-cons m k v (j ∷ ks) h = ground (arith, delete_all-cons (delete m j) k v ks)

  -- Collecting the keys that pass a test and deleting them leaves the entries that fail it.
  pub delete_all-keys_where :
      (test : ℕ → V → Bool) (m : List (ℕ × V))
      → Distinct (keys m)
      → delete_all m (keys_where test m) ≡ reject test m
  unfolding delete_all delete keys keys_where reject
  delete_all-keys_where test [] d = refl
  delete_all-keys_where test ((k, v) ∷ m) d = elim (Bool-cases (test k v)) [
    | inl e ↦ ground (arith, delete_none m k d.0, delete_all-keys_where test m d.1)
    | inr e ↦ ground (
      arith,
      delete_all-cons m k v (keys_where test m) (has-keys_where-le test m k d.0),
      delete_all-keys_where test m d.1,
    )
  ]

  pub length-keys_where :
      (test : ℕ → V → Bool) (m : List (ℕ × V))
      → length (keys_where test m) + length (reject test m) ≡ length m
  unfolding keys_where reject
  length-keys_where test [] = refl
  length-keys_where test ((k, v) ∷ m) = ground (arith, length-keys_where test m)

  has-keys-reject-le :
      (test : ℕ → V → Bool) (m : List (ℕ × V)) (k : ℕ)
      → has (keys m) k ≡ false
      → has (keys (reject test m)) k ≡ false
  unfolding keys reject has
  has-keys-reject-le test [] k h = refl
  has-keys-reject-le test ((i, w) ∷ m) k h = ground (arith, has-keys-reject-le test m k)

  pub Distinct-keys-reject :
      (test : ℕ → V → Bool) (m : List (ℕ × V)) → Distinct (keys m) → Distinct (keys (reject test m))
  unfolding keys reject
  Distinct-keys-reject test [] d = tt
  Distinct-keys-reject test ((i, w) ∷ m) d =
      ground (arith, Distinct-keys-reject test m d.1, has-keys-reject-le test m i d.0)

  pub get-none : (m : List (ℕ × V)) (k : ℕ) → has (keys m) k ≡ false → get m k ≡ none
  unfolding get keys has
  get-none [] k h = refl
  get-none ((i, w) ∷ m) k h = ground (arith, get-none m k)

  pub has-keys_of_get :
      (m : List (ℕ × V)) (k : ℕ) (v : V) → get m k ≡ some v → has (keys m) k ≡ true
  unfolding get keys has
  has-keys_of_get [] k v h = cc
  has-keys_of_get ((i, w) ∷ m) k v h = ground (arith, has-keys_of_get m k v)

  -- An entry is looked up as before if it fails the test, and is gone if it passes.
  pub get-reject :
      (test : ℕ → Bool) (m : List (ℕ × V)) (k : ℕ)
      → get (reject (λ j v. test j) m) k ≡ (if test k then none else get m k)
  unfolding get reject
  get-reject test [] k = ground arith
  get-reject test ((i, w) ∷ m) k = ground (arith, get-reject test m k, congr)
    where
      congr : i ≡ k → test i ≡ test k
      congr e = rw e

  pub length-reject-le :
      (test : ℕ → V → Bool) (m : List (ℕ × V)) → length (reject test m) ≤ length m
  length-reject-le test m = omega (arith, length-keys_where test m)

  -- What is left was there before.
  pub get_of_reject :
      (test : ℕ → V → Bool) (m : List (ℕ × V)) (k : ℕ) (v : V)
      → Distinct (keys m)
      → get (reject test m) k ≡ some v
      → get m k ≡ some v
  unfolding get reject keys
  get_of_reject test [] k v d h = h
  get_of_reject test ((i, w) ∷ m) k v d h = elim (Bool-cases (i == k)) [
    | inl e ↦
        let n : has (keys m) k ≡ false = rw (← (==_iff i k).0 e) d.0 in
        let g : get (reject test m) k ≡ none =
          get-none (reject test m) k (has-keys-reject-le test m k n) in
        ground arith
    | inr e ↦ ground (arith, get_of_reject test m k v d.1)
  ]

  pub length-delete-le : (m : List (ℕ × V)) (k : ℕ) → length (delete m k) ≤ length m
  unfolding delete
  length-delete-le [] k = omega arith
  length-delete-le ((i, w) ∷ m) k = ground (arith, length-delete-le m k)

  -- What a test on the values leaves of a lookup.
  abbrev pub survivor : (V → Bool) → Option V → Option V
  survivor test none = none
  survivor test (some e) = if test e then none else some e

  pub get-reject_by :
      (test : V → Bool) (m : List (ℕ × V)) (k : ℕ)
      → Distinct (keys m)
      → get (reject (λ j e. test e) m) k ≡ survivor test (get m k)
  unfolding get reject keys
  get-reject_by test [] k d = refl
  get-reject_by test ((i, w) ∷ m) k d = elim (Bool-cases (test w)) [
    | inl gone ↦ elim (Bool-cases (i == k)) [
      | inl same ↦
          let n : get m k ≡ none = get-none m k (ground arith) in
          rw (gone, same, gone) (get-reject_by test m k d.1 ∙ ap (survivor test) n)
      | inr other ↦ rw (gone, other) (get-reject_by test m k d.1)
    ]
    | inr kept ↦ elim (Bool-cases (i == k)) [
      | inl same ↦ rw (kept, same, kept)
      | inr other ↦ rw (kept, other) (get-reject_by test m k d.1)
    ]
  ]

  pub has-keys-delete_all :
      (m : List (ℕ × V)) (ks : List ℕ) (k : ℕ)
      → has (keys (delete_all m ks)) k ≡ (not (has ks k) && has (keys m) k)
  unfolding delete_all has
  has-keys-delete_all m [] k = refl
  has-keys-delete_all m (j ∷ ks) k =
      ground (arith, has-keys-delete_all (delete m j) ks k, has-keys-delete m j k)

  pub has-keys_where :
      (test : ℕ → Bool) (m : List (ℕ × V)) (k : ℕ)
      → has (keys_where (λ j v. test j) m) k ≡ (test k && has (keys m) k)
  unfolding keys_where keys has
  has-keys_where test [] k = ground arith
  has-keys_where test ((j, v) ∷ m) k = elim (Bool-cases (j == k)) [
    | inl e ↦
        let p : j ≡ k = ground arith in
        let q : test j ≡ test k = ap test p in ground (arith, has-keys_where test m k)
    | inr e ↦ ground (arith, has-keys_where test m k)
  ]
