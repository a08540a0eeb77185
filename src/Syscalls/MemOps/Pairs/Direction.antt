-- ===== src/Syscalls/MemOps/Pairs/Direction.antt =====
-- The direction in which `memmove_non_contiguous` goes, and the bytes behind it.
use solana_bpf_simulator.Prelude.{
  ℕ, ◌+◌, ◌≤◌, ◌<◌, ◌≡◌, ◌≢◌, Bool, true, false, ltb, leb, inl, inr, ◌⊎◌, Bool-cases, leb→le,
  ltb→lt, arith,
}
use solana_bpf_simulator.Words.{u64_mod, sub64}
use solana_bpf_simulator.Syscalls.MemOps.Pairs.Sides.{offset}

-- The offsets of the bytes that are processed after `p` of `n`.
abbrev pub Done : Bool → ℕ → ℕ → ℕ → Type 0
Done true n p j = (n ≤ j + p) × (j < n)
Done false n p j = j < p

-- The direction in which no byte is overwritten before it is read.
abbrev pub Ordered : Bool → ℕ → ℕ → ℕ → Type 0
Ordered true src_addr dst_addr n = src_addr ≤ dst_addr
Ordered false src_addr dst_addr n = (dst_addr < src_addr) ⊎ (src_addr + n ≤ dst_addr)

pub ltb→ge : (a b : ℕ) → ltb a b ≡ false → b ≤ a
ltb→ge a b h = ground arith

pub Done-step :
    (reverse : Bool) (n p len j : ℕ)
    → p + len ≤ n
    → Done reverse n (p + len) j
    → Done reverse n p j ⊎ ((offset reverse n p len ≤ j) × (j < offset reverse n p len + len))
Done-step true n p len j most d = elim (Bool-cases (leb n (j + p))) [
  | inl before ↦ inl (leb→le n (j + p) before, d.1)
  | inr now ↦ inr (omega arith, ground arith)
]
Done-step false n p len j most d = elim (Bool-cases (ltb j p)) [
  | inl before ↦ inl (ltb→lt j p before)
  | inr now ↦ inr (ground arith, omega arith)
]

pub Done-old : (reverse : Bool) (n p len j : ℕ) → Done reverse n p j → Done reverse n (p + len) j
Done-old true n p len j d = (omega arith, d.1)
Done-old false n p len j d = omega arith

pub Done-new :
    (reverse : Bool) (n p len i : ℕ)
    → p + len ≤ n
    → i < len
    → Done reverse n (p + len) (offset reverse n p len + i)
Done-new true n p len i most below = omega arith
Done-new false n p len i most below = omega arith

-- What is still to be read has not been overwritten.
pub Done-unread :
    (reverse : Bool) (n src_addr dst_addr p len j i : ℕ)
    → Ordered reverse src_addr dst_addr n
    → p + len ≤ n
    → Done reverse n p j
    → i < len
    → src_addr + (offset reverse n p len + i) ≢ dst_addr + j
Done-unread true n src_addr dst_addr p len j i ordered most d below same = omega arith
Done-unread false n src_addr dst_addr p len j i (inl before) most d below same = omega arith
Done-unread false n src_addr dst_addr p len j i (inr behind) most d below same = omega arith

-- Whether a byte of the destination is among the processed ones.
pub Done-decided :
    (reverse : Bool) (n p j : ℕ) → j < n → Done reverse n p j ⊎ (Done reverse n p j → ⊥)
Done-decided true n p j below = elim (Bool-cases (leb n (j + p))) [
  | inl yes' ↦ inl (leb→le n (j + p) yes', below)
  | inr no' ↦ inr (λ d. ground arith)
]
Done-decided false n p j below = elim (Bool-cases (ltb j p)) [
  | inl yes' ↦ inl (ltb→lt j p yes')
  | inr no' ↦ inr (λ d. ground arith)
]

pub Done-all : (reverse : Bool) (n j : ℕ) → j < n → Done reverse n n j
Done-all true n j below = (omega arith, below)
Done-all false n j below = below

pub Done-none : (reverse : Bool) (n j : ℕ) → Done reverse n 0 j → ⊥
Done-none true n j d = omega arith
Done-none false n j d = omega arith

pub Done-lt : (reverse : Bool) (n p j : ℕ) → p ≤ n → Done reverse n p j → j < n
Done-lt true n p j most d = d.1
Done-lt false n p j most d = omega arith

pub direction-Ordered :
    (src_addr dst_addr n : ℕ)
    → src_addr + n < u64_mod
    → dst_addr + n < u64_mod
    → (reverse : Bool) → ltb (sub64 dst_addr src_addr) n ≡ reverse
    → Ordered reverse src_addr dst_addr n
direction-Ordered src_addr dst_addr n s d true e =
    let near : sub64 dst_addr src_addr < n = ltb→lt _ n e in omega arith
direction-Ordered src_addr dst_addr n s d false e = elim (Bool-cases (ltb dst_addr src_addr)) [
  | inl before ↦ inl (ltb→lt dst_addr src_addr before)
  | inr behind ↦
      let after : src_addr ≤ dst_addr = ltb→ge dst_addr src_addr behind in
      let far : n ≤ sub64 dst_addr src_addr = ltb→ge (sub64 dst_addr src_addr) n e in
      inr (omega arith)
]
