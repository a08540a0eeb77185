-- ===== src/MessageExecutor/Needed/Put.antt =====
-- Insertion into a list that is sorted by distinct keys.
use solana_bpf_simulator.Prelude.{
  ℕ, ◌<◌, ◌≤◌, ◌≡◌, refl, sym, ap, ap₂, ◌∙◌, ◌⊎◌, ◌↔◌, inl, inr, List, [], ◌∷◌, All, Any, ltb,
  ltb→lt, ◌==◌, if◌then◌else◌, Bool-cases, ==_iff, arith,
}
use solana_bpf_simulator.MessageExecutor.Needed.{
  Place, found, vacant, behind, binary_search_by_key, insert,
}

module _ {V : Type 0} where
  -- Every key comes before the keys behind it.
  abbrev pub IsSorted : List (ℕ × V) → Type 0
  IsSorted [] = Unit {0}
  IsSorted (e ∷ entries) = All (λ later. e.0 < later.0) entries × IsSorted entries

  abbrev pub HasKey : ℕ → List (ℕ × V) → Type 0
  HasKey key entries = Any (λ e. e.0 ≡ key) entries

  -- Insertion by one walk.
  pub put : ℕ → V → List (ℕ × V) → List (ℕ × V)
  put key v [] = (key, v) ∷ []
  put key v ((k, w) ∷ entries) =
      if k == key
      then (k, w) ∷ entries
      else if ltb k key
      then (k, w) ∷ put key v entries
      else (key, v) ∷ ((k, w) ∷ entries)

  unfoldable pub searched : ℕ → V → List (ℕ × V) → Place → List (ℕ × V)
  searched key v entries (found i) = entries
  searched key v entries (vacant i) = insert i (key, v) entries

  searched-behind :
      (key : ℕ) (v : V) (e : ℕ × V) (entries : List (ℕ × V)) (p : Place)
      → searched key v (e ∷ entries) (behind p) ≡ e ∷ searched key v entries p
  unfolding searched insert
  searched-behind key v e entries (found i) = refl
  searched-behind key v e entries (vacant i) = refl

  pub searched-eq-put :
      (key : ℕ) (v : V) (entries : List (ℕ × V))
      → searched key v entries (binary_search_by_key key entries) ≡ put key v entries
  unfolding binary_search_by_key put
  searched-eq-put key v [] = unfold searched insert in refl
  searched-eq-put key v ((k, w) ∷ entries) = elim (Bool-cases (k == key)) [
    | inl same ↦ rw same (unfold searched in refl)
    | inr other ↦ elim (Bool-cases (ltb k key)) [
      | inl less ↦
          rw (other, less)
            (searched-behind key v (k, w) entries _
              ∙ ap (λ l. (k, w) ∷ l) (searched-eq-put key v entries))
      | inr more ↦ rw (other, more) (unfold searched insert in refl)
    ]
  ]

  pub put-All :
      (P : ℕ × V → Type 0) (key : ℕ) (v : V) (entries : List (ℕ × V))
      → P (key, v)
      → All P entries
      → All P (put key v entries)
  unfolding put
  put-All P key v [] p q = (p, tt)
  put-All P key v ((k, w) ∷ entries) p q = elim (Bool-cases (k == key)) [
    | inl same ↦ rw same q
    | inr other ↦ elim (Bool-cases (ltb k key)) [
      | inl less ↦ rw (other, less) (q.0, put-All P key v entries p q.1)
      | inr more ↦ rw (other, more) (p, q)
    ]
  ]

  All-lt_trans :
      (a b : ℕ) (entries : List (ℕ × V))
      → a < b
      → All (λ later. b < later.0) entries
      → All (λ later. a < later.0) entries
  All-lt_trans a b [] h q = tt
  All-lt_trans a b (e ∷ entries) h q = (omega (arith, q.0), All-lt_trans a b entries h q.1)

  pub put-IsSorted :
      (key : ℕ) (v : V) (entries : List (ℕ × V)) → IsSorted entries → IsSorted (put key v entries)
  unfolding put
  put-IsSorted key v [] s = (tt, tt)
  put-IsSorted key v ((k, w) ∷ entries) s = elim (Bool-cases (k == key)) [
    | inl same ↦ rw same s
    | inr other ↦ elim (Bool-cases (ltb k key)) [
      | inl less ↦
          rw (other, less)
            (
              put-All (λ later. k < later.0) key v entries (ltb→lt k key less) s.0,
              put-IsSorted key v entries s.1,
            )
      | inr more ↦
          rw (other, more)
            (let h : key < k = ground arith in ((h, All-lt_trans key k entries h s.0), s))
    ]
  ]

  pub put-HasKey :
      (j key : ℕ) (v : V) (entries : List (ℕ × V))
      → HasKey j (put key v entries) ↔ ((key ≡ j) ⊎ HasKey j entries)
  unfolding put
  put-HasKey j key v [] = ((λ h. h), (λ h. h))
  put-HasKey j key v ((k, w) ∷ entries) = elim (Bool-cases (k == key)) [
    | inl same ↦ rw same (inr, λ h. elim h [ inl e ↦ inl ((==_iff k key).0 same ∙ e) | inr i ↦ i ])
    | inr other ↦ elim (Bool-cases (ltb k key)) [
      | inl less ↦
          let (to, from) = put-HasKey j key v entries in
          rw (other, less)
            (
              (λ h. elim h [
                | inl e ↦ inr (inl e)
                | inr i ↦ elim (to i) [ inl e ↦ inl e | inr m ↦ inr (inr m) ]
              ]),
              (λ h. elim h [
                | inl e ↦ inr (from (inl e))
                | inr m ↦ elim m [ inl e ↦ inl e | inr n ↦ inr (from (inr n)) ]
              ]),
            )
      | inr more ↦ rw (other, more) ((λ h. h), (λ h. h))
    ]
  ]

  All-lt-HasKey :
      (a j : ℕ) (entries : List (ℕ × V))
      → All (λ later. a < later.0) entries
      → HasKey j entries
      → a < j
  All-lt-HasKey a j [] q h = absurd h
  All-lt-HasKey a j (e ∷ entries) q (inl same) = omega (arith, q.0)
  All-lt-HasKey a j (e ∷ entries) q (inr later) = All-lt-HasKey a j entries q.1 later

  unfoldable pub SameKeys : List (ℕ × V) → List (ℕ × V) → Type 0
  SameKeys xs ys = (j : ℕ) → HasKey j xs ↔ HasKey j ys

  not_later :
      (x y : ℕ × V) (xs ys : List (ℕ × V))
      → IsSorted (x ∷ xs)
      → IsSorted (y ∷ ys)
      → HasKey x.0 (y ∷ ys)
      → y.0 ≤ x.0
  not_later x y xs ys p q (inl e) = omega arith
  not_later x y xs ys p q (inr later) = omega (arith, All-lt-HasKey y.0 x.0 ys q.0 later)

  tail_keys :
      (x y : ℕ × V) (xs ys : List (ℕ × V)) (j : ℕ)
      → IsSorted (x ∷ xs)
      → x.0 ≡ y.0
      → (HasKey j (x ∷ xs) → HasKey j (y ∷ ys))
      → HasKey j xs
      → HasKey j ys
  tail_keys x y xs ys j s e f h = elim (f (inr h)) [
    | inl here ↦ absurd (omega (arith, All-lt-HasKey x.0 j xs s.0 h))
    | inr later ↦ later
  ]

  -- Sorted lists with one value throughout are equal when they have the same keys.
  pub sorted_unique :
      (v : V) (xs ys : List (ℕ × V))
      → IsSorted xs
      → IsSorted ys
      → All (λ e. e.1 ≡ v) xs
      → All (λ e. e.1 ≡ v) ys
      → SameKeys xs ys
      → xs ≡ ys
  unfolding SameKeys
  sorted_unique v [] [] s t p q same = refl
  sorted_unique v [] (y ∷ ys) s t p q same = absurd ((same y.0).1 (inl refl))
  sorted_unique v (x ∷ xs) [] s t p q same = absurd ((same x.0).0 (inl refl))
  sorted_unique v (x ∷ xs) (y ∷ ys) s t p q same =
      let e : x.0 ≡ y.0 = omega (
        arith,
        not_later x y xs ys s t ((same x.0).0 (inl refl)),
        not_later y x ys xs t s ((same y.0).1 (inl refl)),
      ) in
      ap₂ (λ a b. a ∷ b) (ap₂ (λ a b. (a, b)) e (p.0 ∙ sym q.0))
        (sorted_unique v xs ys s.1 t.1 p.1 q.1
          (λ j. (tail_keys x y xs ys j s e (same j).0, tail_keys y x ys xs j t (sym e) (same j).1)))
