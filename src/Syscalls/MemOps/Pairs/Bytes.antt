-- ===== src/Syscalls/MemOps/Pairs/Bytes.antt =====
-- The bytes of the host after some of a range has been copied.
use solana_bpf_simulator.Prelude.{
  ℕ, zero, suc, ◌+◌, ◌-◌, ◌≤◌, ◌<◌, ◌≡◌, ◌≢◌, sym, ap, ◌∙◌, ◌⊎◌, inl, inr, true, false, ltb, leb,
  List, ◌==◌, if◌then◌else◌, Bool-cases, ltb→lt, leb→le, arith,
}
use solana_bpf_simulator.Syscalls.Host
use solana_bpf_simulator.Syscalls.Host.{Host, length-load, store_outside}

-- A copied byte is the byte that was there before the copy, also where the ranges overlap.
store-load :
    (host from : Host) (to at n i : ℕ)
    → i < n
    → Host.store host to (Host.load from at n) (to + i) ≡ from (at + i)
unfolding Host.store Host.load
store-load host from to at zero i h = elim h [ ]
store-load host from to at (suc n) zero h =
    ap (λ t. if t then from at else Host.store host (to + 1) (Host.load from (at + 1) n) (to + 0))
      {x = to + 0 == to} {y = true} (ground arith)
    ∙ ap from {x = at} {y = at + 0} (omega arith)
store-load host from to at (suc n) (suc i) h =
    ap
      (λ t.
        if t then from at else Host.store host (to + 1) (Host.load from (at + 1) n) (to + suc i))
      {x = to + suc i == to} {y = false} (ground arith)
    ∙ ap (Host.store host (to + 1) (Host.load from (at + 1) n)) {x = to + suc i} {y = to + 1 + i}
        (omega arith)
    ∙ store-load host from (to + 1) (at + 1) n i (omega arith)
    ∙ ap from {x = at + 1 + i} {y = at + suc i} (omega arith)

-- An address is outside of a range, or one of its addresses.
outside_or_inside : (a to n : ℕ) → ((a < to) ⊎ (to + n ≤ a)) ⊎ ((i : ℕ) × (i < n) × (a ≡ to + i))
outside_or_inside a to n = elim (Bool-cases (ltb a to)) [
  | inl before ↦ inl (inl (ltb→lt a to before))
  | inr from ↦ elim (Bool-cases (leb (to + n) a)) [
    | inl behind ↦ inl (inr (leb→le (to + n) a behind))
    | inr within ↦ inr (a - to, ground arith, ground arith)
  ]
]

-- `h` says where the host has a byte of the program's memory: no two of them lie at one place.
module _ (h : ℕ → ℕ) (apart : (a b : ℕ) → h a ≡ h b → a ≡ b) (src_addr dst_addr : ℕ) where
  -- The bytes at the offsets of `D` have been copied, and nothing else has changed.
  pub record Copied (D : ℕ → Type 0) (before after : Host) : Type 0 where
    pub copied : (j : ℕ) → D j → after (h (dst_addr + j)) ≡ before (h (src_addr + j))
    pub kept : (a : ℕ) → ((j : ℕ) → D j → a ≢ h (dst_addr + j)) → after a ≡ before a

  pub copy_piece :
      (D D' : ℕ → Type 0) (before host : Host) (off len : ℕ)
      → Copied D before host
      → ((i : ℕ) → i < len → h (src_addr + (off + i)) ≡ h (src_addr + off) + i)
      → ((i : ℕ) → i < len → h (dst_addr + (off + i)) ≡ h (dst_addr + off) + i)
      → ((j i : ℕ) → D j → i < len → src_addr + (off + i) ≢ dst_addr + j)
      → ((j : ℕ) → D' j → D j ⊎ ((off ≤ j) × (j < off + len)))
      → ((j : ℕ) → D j → D' j)
      → ((i : ℕ) → i < len → D' (off + i))
      → Copied D' before
          (Host.store host (h (dst_addr + off)) (Host.load host (h (src_addr + off)) len))
  copy_piece D D' before host off len c reads writes unread grown old new = record {
    copied = λ j d'. elim (outside_or_inside (h (dst_addr + j)) to len) [
      | inr (i, below, same) ↦
          let here : dst_addr + j ≡ dst_addr + (off + i) =
            apart _ _ (same ∙ sym (writes i below)) in
          let offset : j ≡ off + i = omega arith in
          ap (Host.store host to bytes) same
          ∙ store-load host host to (h (src_addr + off)) len i below
          ∙ ap host (sym (reads i below))
          ∙ c.kept (h (src_addr + (off + i))) (λ k d clash. unread k i d below (apart _ _ clash))
          ∙ ap (λ k. before (h (src_addr + k))) (sym offset)
      | inl outside ↦ elim (grown j d') [
        | inl d ↦ beside (h (dst_addr + j)) outside ∙ c.copied j d
        | inr (from, below) ↦
            let offset : off + (j - off) ≡ j = omega arith in
            let there : h (dst_addr + j) ≡ to + (j - off) =
              ap (λ k. h (dst_addr + k)) (sym offset) ∙ writes (j - off) (omega arith) in
            absurd (elim outside [ inl left ↦ omega arith | inr right ↦ omega arith ])
      ]
    ];
    kept = λ a untouched. elim (outside_or_inside a to len) [
      | inl outside ↦ beside a outside ∙ c.kept a (λ j d. untouched j (old j d))
      | inr (i, below, same) ↦
          absurd (untouched (off + i) (new i below) (same ∙ sym (writes i below)))
    ];
  }
    where
      to : ℕ
      to = h (dst_addr + off)

      bytes : List ℕ
      bytes = Host.load host (h (src_addr + off)) len

      beside : (a : ℕ) → (a < to) ⊎ (to + len ≤ a) → Host.store host to bytes a ≡ host a
      beside a outside =
          store_outside host to a bytes (rw (length-load host (h (src_addr + off)) len) outside)
