-- ===== src/Syscalls/Host.antt =====
-- The memory of the host: a byte at each address, read and written a range at a time.
use solana_bpf_simulator.Prelude.{
  ℕ, zero, suc, ◌+◌, ◌≤◌, ◌<◌, ◌≡◌, refl, ap, ap₂, ◌∙◌, ◌⊎◌, inl, inr, false, List, [], ◌∷◌, length,
  take, ◌==◌, if◌then◌else◌, ==_refl, arith,
}

abbrev pub Host : Type 0
Host = ℕ → ℕ

abbrev pub poke : Host → ℕ → ℕ → Host
poke host at byte a = if a == at then byte else host a

unfoldable pub load : Host → ℕ → ℕ → List ℕ
load host at zero = []
load host at (suc n) = host at ∷ load host (at + 1) n

unfoldable pub store : Host → ℕ → List ℕ → Host
store host at [] = host
store host at (byte ∷ bytes) = poke (store host (at + 1) bytes) at byte

pub length-load : (host : Host) (at n : ℕ) → length (load host at n) ≡ n
unfolding load
length-load host at zero = refl
length-load host at (suc n) = ap suc (length-load host (at + 1) n)

-- A write does not change what is outside of it.
pub store_outside :
    (host : Host) (at a : ℕ) (bytes : List ℕ)
    → (a < at) ⊎ (at + length bytes ≤ a)
    → store host at bytes a ≡ host a
unfolding store
store_outside host at a [] h = refl
store_outside host at a (byte ∷ bytes) (inl h) =
    ap (λ t. if t then byte else store host (at + 1) bytes a) {x = a == at} {y = false}
      (ground arith)
    ∙ store_outside host (at + 1) a bytes (inl (omega arith))
store_outside host at a (byte ∷ bytes) (inr h) =
    ap (λ t. if t then byte else store host (at + 1) bytes a) {x = a == at} {y = false}
      (ground arith)
    ∙ store_outside host (at + 1) a bytes (inr (omega arith))

pub load_ext :
    (h k : Host) (at n : ℕ)
    → ((a : ℕ) → at ≤ a → a < at + n → h a ≡ k a)
    → load h at n ≡ load k at n
unfolding load
load_ext h k at zero e = refl
load_ext h k at (suc n) e =
    ap₂ (λ b bs. b ∷ bs) (e at (omega arith) (omega arith))
      (load_ext h k (at + 1) n (λ a p q. e a (omega arith) (omega arith)))

-- What was written is read back.
pub load-store :
    (host : Host) (at n : ℕ) (bytes : List ℕ)
    → n ≡ length bytes
    → load (store host at bytes) at n ≡ bytes
unfolding load store
load-store host at zero [] e = refl
load-store host at zero (byte ∷ bytes) e = absurd (omega arith)
load-store host at (suc n) [] e = absurd (omega arith)
load-store host at (suc n) (byte ∷ bytes) e =
    ap₂ (λ b bs. b ∷ bs) (ap (λ t. if t then byte else store host (at + 1) bytes at) (==_refl at))
      (load_ext (store host at (byte ∷ bytes)) (store host (at + 1) bytes) (at + 1) n (λ a p q.
          ap (λ t. if t then byte else store host (at + 1) bytes a) {x = a == at} {y = false}
            (ground arith))
        ∙ load-store host (at + 1) n bytes (omega arith))

-- A write beside a range leaves what is read from the range.
pub load-store_outside :
    (host : Host) (at n to : ℕ) (bytes : List ℕ)
    → (at + n ≤ to) ⊎ (to + length bytes ≤ at)
    → load (store host to bytes) at n ≡ load host at n
load-store_outside host at n to bytes (inl h) =
    load_ext (store host to bytes) host at n
      (λ a p q. store_outside host to a bytes (inl (omega arith)))
load-store_outside host at n to bytes (inr h) =
    load_ext (store host to bytes) host at n
      (λ a p q. store_outside host to a bytes (inr (omega arith)))

pub take-load : (host : Host) (at m n : ℕ) → m ≤ n → take m (load host at n) ≡ load host at m
unfolding load
take-load host at zero n h = refl
take-load host at (suc m) zero h = absurd (omega arith)
take-load host at (suc m) (suc n) h =
    ap (λ bs. host at ∷ bs) (take-load host (at + 1) m n (omega arith))
