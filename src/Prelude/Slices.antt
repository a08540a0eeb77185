-- ===== src/Prelude/Slices.antt =====
-- Ranges of a slice: `cut` and `splice` are the plain functions, `range` and `overwrite` add the
-- bounds checks of Rust's indexing.
use Prim.Native.Nat.{ℕ, zero, suc, ◌+◌, ◌-◌, ◌≤◌}
use mathlib.Core.Path.{◌≡◌, refl, sym, ap, ap₂, ◌∙◌}
use mathlib.Core.Bool.{◌&&◌}
use mathlib.Core.List.{List, [], ◌∷◌, ◌++◌, append_assoc}
use mathlib.Core.Option.{Option, none, some}
use native.Mathlib.Omega.{arith}
use solana_bpf_simulator.Prelude.Tests.{leb, ◌==◌, if◌then◌else◌, ==_iff, le→leb}
use solana_bpf_simulator.Prelude.Lists.{
  length, get_elem?, take, drop, length-append, length-take, length-drop, take-append, take-all,
  drop-append, drop-append_le, take-append-drop,
}

module _ {ℓ} {A : Type ℓ} where
  unfoldable pub cut : ℕ → ℕ → List A → List A
  cut from n l = take n (drop from l)

  unfoldable pub splice : ℕ → List A → List A → List A
  splice at v l = take at l ++ (v ++ drop (at + length v) l)

  -- `&l[from..to]`, where `none` is the panic on a range out of bounds.
  unfoldable pub range : ℕ → ℕ → List A → Option (List A)
  range from to l = if leb from to && leb to (length l) then some (cut from (to - from) l) else none

  -- `l.get(from..)`
  unfoldable pub get_from : ℕ → List A → Option (List A)
  get_from from l = if leb from (length l) then some (drop from l) else none

  pub get_from_le : (from : ℕ) (l : List A) → from ≤ length l → get_from from l ≡ some (drop from l)
  unfolding get_from
  get_from_le from l h = rw (le→leb from (length l) h) refl

  -- `l[from..to].copy_from_slice(v)`, which panics also where the lengths differ.
  unfoldable pub overwrite : ℕ → ℕ → List A → List A → Option (List A)
  overwrite from to v l =
      if (leb from to && leb to (length l)) && (to - from == length v)
      then some (splice from v l)
      else none

  drop-add : (xs ys : List A) (n : ℕ) → drop (length xs + n) (xs ++ ys) ≡ drop n ys
  drop-add [] ys n = ap (λ k. drop k ys) {x = zero + n} {y = n} (omega arith)
  drop-add (x ∷ xs) ys n =
      ap (λ k. drop k (x ∷ (xs ++ ys))) {x = suc (length xs) + n} {y = suc (length xs + n)}
        (omega arith)
      ∙ drop-add xs ys n

  drop-nil : (n : ℕ) → drop {A = A} n [] ≡ []
  drop-nil zero = refl
  drop-nil (suc n) = refl

  drop-drop : (m n : ℕ) (xs : List A) → drop n (drop m xs) ≡ drop (m + n) xs
  drop-drop zero n xs = ap (λ k. drop k xs) {x = n} {y = zero + n} (omega arith)
  drop-drop (suc m) n [] = drop-nil n ∙ sym (drop-nil (suc m + n))
  drop-drop (suc m) n (x ∷ xs) =
      drop-drop m n xs ∙ ap (λ k. drop k (x ∷ xs)) {x = suc (m + n)} {y = suc m + n} (omega arith)

  -- Reading behind a prefix, and reading a whole part.
  pub cut_skip : (i k n : ℕ) (xs ys : List A) → i ≡ length xs + k → cut i n (xs ++ ys) ≡ cut k n ys
  unfolding cut
  cut_skip i k n xs ys e = rw e (ap (take n) (drop-add xs ys k))

  pub cut_head : (n : ℕ) (xs ys : List A) → n ≡ length xs → cut 0 n (xs ++ ys) ≡ xs
  unfolding cut
  cut_head n xs ys e = take-append xs ys n e

  pub cut_all : (n : ℕ) (xs : List A) → n ≡ length xs → cut 0 n xs ≡ xs
  unfolding cut
  cut_all n xs e = take-all xs n (omega arith)

  pub length-splice :
      (at : ℕ) (v l : List A) → at + length v ≤ length l → length (splice at v l) ≡ length l
  unfolding splice
  length-splice at v l h = omega (
    arith,
    length-append (take at l) (v ++ drop (at + length v) l),
    length-append v (drop (at + length v) l),
    length-take at l,
    length-drop (at + length v) l,
  )

  -- A write into the middle of a list whose parts are known.
  pub splice_middle :
      (at : ℕ) (v before old after : List A)
      → at ≡ length before
      → length v ≡ length old
      → splice at v (before ++ (old ++ after)) ≡ before ++ (v ++ after)
  unfolding splice
  splice_middle at v before old after e f =
      ap₂ (λ s t. s ++ (v ++ t)) (take-append before (old ++ after) at e)
        (rw e (drop-add before (old ++ after) (length v)) ∙ drop-append old after (length v) f)

  -- A second write where the first one ended makes one longer write.
  pub splice-splice :
      (at next : ℕ) (v w l : List A)
      → next ≡ at + length v
      → at + length v ≤ length l
      → splice next w (splice at v l) ≡ splice at (v ++ w) l
  unfolding splice
  splice-splice at next v w l e h =
      ap₂ (λ s t. s ++ (w ++ t))
        (ap (take next) split ∙ take-append (take at l ++ v) rest next front)
        (ap (drop (next + length w)) split
          ∙ ap (λ k. drop (k + length w) ((take at l ++ v) ++ rest)) front
          ∙ drop-add (take at l ++ v) rest (length w)
          ∙ drop-drop (at + length v) (length w) l
          ∙ ap (λ k. drop k l) (omega (arith, length-append v w)))
      ∙ append_assoc (take at l) v _
      ∙ ap (λ t. take at l ++ t) (sym (append_assoc v w _))
    where
      rest : List A
      rest = drop (at + length v) l

      split : take at l ++ (v ++ rest) ≡ (take at l ++ v) ++ rest
      split = sym (append_assoc (take at l) v rest)

      front : next ≡ length (take at l ++ v)
      front = omega (arith, length-append (take at l) v, length-take at l)

  take-append_le : (xs ys : List A) (n : ℕ) → n ≤ length xs → take n (xs ++ ys) ≡ take n xs
  take-append_le xs ys zero h = refl
  take-append_le [] ys (suc n) h = absurd (omega arith)
  take-append_le (x ∷ xs) ys (suc n) h = ap (λ t. x ∷ t) (take-append_le xs ys n (omega arith))

  cut-append_le : (k n : ℕ) (xs ys : List A) → k + n ≤ length xs → cut k n (xs ++ ys) ≡ cut k n xs
  unfolding cut
  cut-append_le k n xs ys h =
      ap (take n) (drop-append_le xs ys k (omega arith))
      ∙ take-append_le (drop k xs) ys n (omega (arith, length-drop k xs))

  -- A write leaves what stands before it and behind it.
  pub cut-splice_before :
      (k n at : ℕ) (v l : List A) → k + n ≤ at → at ≤ length l → cut k n (splice at v l) ≡ cut k n l
  unfolding splice
  cut-splice_before k n at v l h in_list =
      cut-append_le k n (take at l) _ (omega (arith, length-take at l))
      ∙ sym (cut-append_le k n (take at l) (drop at l) (omega (arith, length-take at l)))
      ∙ ap (cut k n) (take-append-drop at l)

  pub cut-splice_behind :
      (k n at : ℕ) (v l : List A)
      → at + length v ≤ k
      → at + length v ≤ length l
      → cut k n (splice at v l) ≡ cut k n l
  unfolding splice
  cut-splice_behind k n at v l h in_list =
      ap (cut k n) (sym (append_assoc (take at l) v rest))
      ∙ cut_skip k gap n (take at l ++ v) rest
          (omega (arith, length-append (take at l) v, length-take at l))
      ∙ sym (
          cut_skip k gap n (take (at + length v) l) rest
            (omega (arith, length-take (at + length v) l)))
      ∙ ap (cut k n) (take-append-drop (at + length v) l)
    where
      gap : ℕ
      gap = k - (at + length v)

      rest : List A
      rest = drop (at + length v) l

  -- The bounds checks pass where the range lies in the list.
  pub range-cut :
      (from to n : ℕ) (l : List A)
      → to ≡ from + n
      → to ≤ length l
      → range from to l ≡ some (cut from n l)
  unfolding range
  range-cut from to n l e h =
      rw (le→leb from to (omega arith), le→leb to (length l) h)
        (ap (λ k. some (cut from k l)) (omega arith))

  pub overwrite-splice :
      (from to : ℕ) (v l : List A)
      → to ≡ from + length v
      → to ≤ length l
      → overwrite from to v l ≡ some (splice from v l)
  unfolding overwrite
  overwrite-splice from to v l e h = rw (
    le→leb from to (omega arith),
    le→leb to (length l) h,
    (==_iff (to - from) (length v)).1 (omega arith),
  )

  -- Reading a part of which it is known what stands before and behind it.
  pub range_middle :
      (from to : ℕ) (before part behind : List A)
      → from ≡ length before
      → to ≡ from + length part
      → range from to (before ++ (part ++ behind)) ≡ some part
  range_middle from to before part behind e f =
      range-cut from to (length part) (before ++ (part ++ behind)) f
        (omega (arith, length-append before (part ++ behind), length-append part behind))
      ∙ ap some (
          cut_skip from 0 (length part) before (part ++ behind) (omega arith)
          ∙ cut_head (length part) part behind refl)

  pub get_elem?_middle :
      (i : ℕ) (before behind : List A) (a : A)
      → i ≡ length before
      → get_elem? (before ++ (a ∷ behind)) i ≡ some a
  get_elem?_middle zero [] behind a e = refl
  get_elem?_middle (suc i) [] behind a e = absurd (omega arith)
  get_elem?_middle zero (x ∷ before) behind a e = absurd (omega arith)
  get_elem?_middle (suc i) (x ∷ before) behind a e =
      get_elem?_middle i before behind a (omega arith)

-- A write never makes the list longer or shorter.
pub length-overwrite :
    {A : Type 0} (from to : ℕ) (v l : List A) {m : List A}
    → overwrite from to v l ≡ some m
    → length m ≡ length l
unfolding overwrite
length-overwrite from to v l h = ground (arith, length-splice from v l (ground arith))
