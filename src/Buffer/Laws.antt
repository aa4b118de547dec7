-- ===== src/Buffer/Laws.antt =====
-- src/general/buffer.h: the table as a finite map, its size, and its well-formedness.
use vans.Base.{
  ℕ, suc, ◌+◌, ◌<◌, ◌≡◌, ◌≢◌, refl, sym, ap, subst, ltb, false, inl, inr, true, Bool-cases, ==_iff,
  List, [], ◌∷◌, none, some, arith, ◌==◌, if◌then◌else◌, length, All, ok,
}
use vans.Base.Bits.{add64}
use vans.Buffer.{Buffer, lookup, remove, update, insert}

module _ {ℓ} {E : Type ℓ} where
  pub lookup-update :
      (j k : ℕ) (v w : E) (m : List (ℕ × E))
      → lookup k m ≡ some w
      → lookup j (update k v m) ≡ (if k == j then some v else lookup j m)
  unfolding lookup update
  lookup-update j k v w [] h = ground arith
  lookup-update j k v w ((i, e) ∷ m) h = ground (arith, lookup-update j k v w m)

  pub length-update : (k : ℕ) (v : E) (m : List (ℕ × E)) → length (update k v m) ≡ length m
  unfolding update
  length-update k v [] = refl
  length-update k v ((j, e) ∷ m) = ground (arith, length-update k v m)

  -- A key that is held leaves one place free.
  pub length-remove :
      (k : ℕ) (e : E) (m : List (ℕ × E)) → lookup k m ≡ some e → length (remove k m) + 1 ≡ length m
  unfolding lookup remove
  length-remove k e [] h = ground arith
  length-remove k e ((j, f) ∷ m) h = ground (arith, length-remove k e m)

  -- No key stands twice.
  abbrev pub Distinct : List (ℕ × E) → Type ℓ
  Distinct [] = Unit
  Distinct ((j, e) ∷ m) = (lookup j m ≡ none) × Distinct m

  pub lookup-remove-none :
      (j k : ℕ) (m : List (ℕ × E)) → lookup j m ≡ none → lookup j (remove k m) ≡ none
  unfolding lookup remove
  lookup-remove-none j k [] h = refl
  lookup-remove-none j k ((i, e) ∷ m) h = ground (arith, lookup-remove-none j k m)

  pub lookup-remove :
      (j k : ℕ) (m : List (ℕ × E))
      → Distinct m
      → lookup j (remove k m) ≡ (if k == j then none else lookup j m)
  unfolding lookup remove
  lookup-remove j k [] d = ground arith
  lookup-remove j k ((i, e) ∷ m) d = ground (arith, lookup-remove j k m d.1)

  pub remove-Distinct : (k : ℕ) (m : List (ℕ × E)) → Distinct m → Distinct (remove k m)
  unfolding remove
  remove-Distinct k [] d = tt
  remove-Distinct k ((i, e) ∷ m) d =
      ground (arith, remove-Distinct k m d.1, lookup-remove-none i k m)

  lookup-update-none :
      (j k : ℕ) (v : E) (m : List (ℕ × E)) → lookup j m ≡ none → lookup j (update k v m) ≡ none
  unfolding lookup update
  lookup-update-none j k v [] h = refl
  lookup-update-none j k v ((i, e) ∷ m) h = ground (arith, lookup-update-none j k v m)

  pub update-Distinct : (k : ℕ) (v : E) (m : List (ℕ × E)) → Distinct m → Distinct (update k v m)
  unfolding update
  update-Distinct k v [] d = tt
  update-Distinct k v ((i, e) ∷ m) d =
      ground (arith, update-Distinct k v m d.1, lookup-update-none i k v m)

  module _ {κ} (P : ℕ × E → Type κ) where
    pub All-remove : (k : ℕ) (m : List (ℕ × E)) → All P m → All P (remove k m)
    unfolding remove
    All-remove k [] a = tt
    All-remove k ((i, e) ∷ m) a = ground (arith, All-remove k m a.1)

    pub All-lookup : (k : ℕ) (e : E) (m : List (ℕ × E)) → All P m → lookup k m ≡ some e → P (k, e)
    unfolding lookup
    All-lookup k e [] a h = ground arith
    All-lookup k e ((i, f) ∷ m) a h = elim (Bool-cases (i == k)) [
      | inl same ↦ subst P (head-path same (rw same at h)) a.0
      | inr other ↦ All-lookup k e m a.1 (rw other at h)
    ]
      where
        head-path : (i == k) ≡ true → some f ≡ some e → ◌≡◌ {A = ℕ × E} (i, f) (k, e)
        head-path p q = ground arith

    pub All-update : (k : ℕ) (v : E) (m : List (ℕ × E)) → All P m → P (k, v) → All P (update k v m)
    unfolding update
    All-update k v [] a h = tt
    All-update k v ((i, e) ∷ m) a h = elim (Bool-cases (i == k)) [
      | inl same ↦ rw same (subst P (λ t. (sym ((==_iff i k).0 same) t, v)) h, a.1)
      | inr other ↦ rw other (a.0, All-update k v m a.1 h)
    ]

  -- Where only the entry under `k` may be wrong, writing a right one there mends the table.
  module _ {κ} (P : ℕ × E → Type κ) where
    abbrev pub AllBut : ℕ → List (ℕ × E) → Type κ
    AllBut k m = All (λ p. p.0 ≢ k → P p) m

    pub All-AllBut : (k : ℕ) (m : List (ℕ × E)) → All P m → AllBut k m
    All-AllBut k [] a = tt
    All-AllBut k (p ∷ m) a = (λ _. a.0, All-AllBut k m a.1)

    All-of_AllBut : (k : ℕ) (m : List (ℕ × E)) → AllBut k m → lookup k m ≡ none → All P m
    unfolding lookup
    All-of_AllBut k [] a h = tt
    All-of_AllBut k ((i, e) ∷ m) a h = elim (Bool-cases (i == k)) [
      | inl same ↦ absurd (ground arith)
      | inr other ↦ (a.0 (λ q. ground arith), All-of_AllBut k m a.1 (rw other at h))
    ]

    pub AllBut-update :
        (k : ℕ) (v : E) (m : List (ℕ × E))
        → AllBut k m
        → Distinct m
        → P (k, v)
        → All P (update k v m)
    unfolding update
    AllBut-update k v [] a d h = tt
    AllBut-update k v ((i, e) ∷ m) a d h = elim (Bool-cases (i == k)) [
      | inl same ↦
          let q = (==_iff i k).0 same in
          rw same (
            subst (λ t. P (t, v)) (sym q) h,
            All-of_AllBut k m a.1 (subst (λ t. lookup t m ≡ none) q d.0),
          )
      | inr other ↦ rw other (a.0 (λ q. ground arith), AllBut-update k v m a.1 d.1 h)
    ]

  -- The same keys, in the same order.
  abbrev pub SameKeys : List (ℕ × E) → List (ℕ × E) → Type 0
  SameKeys [] [] = Unit
  SameKeys [] (q ∷ n) = ⊥
  SameKeys (p ∷ m) [] = ⊥
  SameKeys ((j, e) ∷ m) ((k, f) ∷ n) = (j ≡ k) × SameKeys m n

  pub SameKeys-length : (m n : List (ℕ × E)) → SameKeys m n → length m ≡ length n
  SameKeys-length [] [] s = refl
  SameKeys-length [] (q ∷ n) s = absurd s
  SameKeys-length (p ∷ m) [] s = absurd s
  SameKeys-length ((j, e) ∷ m) ((k, f) ∷ n) s = ap suc (SameKeys-length m n s.1)

  SameKeys-none :
      (i : ℕ) (m n : List (ℕ × E)) → SameKeys m n → lookup i m ≡ none → lookup i n ≡ none
  unfolding lookup
  SameKeys-none i [] [] s h = refl
  SameKeys-none i [] (q ∷ n) s h = absurd s
  SameKeys-none i (p ∷ m) [] s h = absurd s
  SameKeys-none i ((j, e) ∷ m) ((k, f) ∷ n) s h = ground (arith, SameKeys-none i m n s.1)

  pub SameKeys-Distinct : (m n : List (ℕ × E)) → SameKeys m n → Distinct m → Distinct n
  SameKeys-Distinct [] [] s d = tt
  SameKeys-Distinct [] (q ∷ n) s d = absurd s
  SameKeys-Distinct (p ∷ m) [] s d = absurd s
  SameKeys-Distinct ((j, e) ∷ m) ((k, f) ∷ n) s d = (
    SameKeys-none k m n s.1 (subst (λ i. lookup i m ≡ none) s.0 d.0),
    SameKeys-Distinct m n s.1 d.1,
  )

  -- Where the key is free and there is room, `insert` does not throw.
  pub insert-eq :
      (addr_func : ℕ → ℕ) (addr : ℕ) (make : ℕ → E) (b : Buffer E)
      → lookup (addr_func addr) b.entry_map ≡ none
      → length b.entry_map < b.max_entries
      → b.next_available_index ≡ length b.entry_map
      → insert addr_func addr make b
        ≡ ok (
          make b.next_available_index,
          record b {
            entry_map = (addr_func addr, make b.next_available_index) ∷ b.entry_map;
            next_available_index = add64 b.next_available_index 1;
          },
        )
  unfolding insert
  insert-eq addr_func addr make b free room index =
      let fits : ltb b.max_entries (length b.entry_map + 1) ≡ false = ground arith in
      let in_range : ltb b.max_entries b.next_available_index ≡ false = ground arith in
      rw (free, insert) (rw (fits, in_range) refl)
