-- ===== src/Syscalls/Translate/Overlap.antt =====
-- What `is_nonoverlapping` decides, and what a translation yields.
use solana_bpf_simulator.Prelude.{
  ℕ, ◌+◌, ◌≤◌, ◌<◌, ◌≡◌, refl, ◌↔◌, ◌⊎◌, inl, inr, true, false, ◌==◌, arith,
}
use solana_bpf_simulator.Prelude.Outcome.{ok}
use solana_bpf_simulator.Words.{u64_mod, saturating_mul}
use solana_bpf_simulator.Syscalls.Types.{
  AccessType, MemoryMapping, u8, TypeLayout, Runtime, Machine,
}
use solana_bpf_simulator.Syscalls.Translate.{
  is_nonoverlapping, translate, translate_type_inner, translate_slice_inner,
}

pub is_nonoverlapping_apart :
    (src src_len dst dst_len : ℕ)
    → is_nonoverlapping src src_len dst dst_len ≡ true
    → (src + src_len ≤ dst) ⊎ (dst + dst_len ≤ src)
unfolding is_nonoverlapping
is_nonoverlapping_apart src src_len dst dst_len h = ground arith

pub apart-is_nonoverlapping :
    (src src_len dst dst_len : ℕ)
    → 0 < dst_len
    → (src + src_len ≤ dst) ⊎ (dst + dst_len ≤ src)
    → is_nonoverlapping src src_len dst dst_len ≡ true
unfolding is_nonoverlapping
apart-is_nonoverlapping src src_len dst dst_len p h = ground arith

lt_or_le : (a b : ℕ) → (a < b) ⊎ (b ≤ a)
lt_or_le a b = omega arith

-- Of two ranges that are not empty, the test says that they do not overlap exactly when no address
-- lies in both.
pub is_nonoverlapping_iff :
    (src src_len dst dst_len : ℕ)
    → 0 < src_len
    → 0 < dst_len
    → (is_nonoverlapping src src_len dst dst_len ≡ true)
      ↔ ((a : ℕ) → src ≤ a → a < src + src_len → dst ≤ a → dst + dst_len ≤ a)
is_nonoverlapping_iff src src_len dst dst_len p q = (
  (λ h a i j k. elim (is_nonoverlapping_apart src src_len dst dst_len h) [
    | inl l ↦ absurd (omega arith)
    | inr r ↦ omega arith
  ]),
  (λ f. apart-is_nonoverlapping src src_len dst dst_len q (split f)),
)
  where
    split :
        ((a : ℕ) → src ≤ a → a < src + src_len → dst ≤ a → dst + dst_len ≤ a)
        → (src + src_len ≤ dst) ⊎ (dst + dst_len ≤ src)
    split f = elim (lt_or_le dst (src + src_len)) [
      | inr h ↦ inl h
      | inl h ↦ elim (lt_or_le src (dst + dst_len)) [
        | inr k ↦ inr k
        | inl k ↦ elim (lt_or_le src dst) [
          | inl l ↦ absurd (omega (arith, f dst (omega arith) h (omega arith)))
          | inr l ↦ absurd (omega (arith, f src (omega arith) (omega arith) l))
        ]
      ]
    ]

module _ (rt : Runtime) where
  pub translate_slice_ok :
      (memory_mapping : MemoryMapping) (access_type : AccessType) (vm_addr len host_addr : ℕ)
      (machine : Machine rt)
      → 0 < len
      → len < u64_mod
      → memory_mapping.map access_type vm_addr len ≡ ok host_addr
      → translate_slice_inner rt u8 memory_mapping access_type vm_addr len false false machine
        ≡ ok (record { address = host_addr; len = len }, machine)
  unfolding translate_slice_inner translate
  translate_slice_ok memory_mapping access_type vm_addr len host_addr machine p q e =
      rw (ne, whole, translate, e) refl
    where
      ne : (len == 0) ≡ false
      ne = ground arith

      whole : saturating_mul len 1 ≡ len
      whole = omega arith

  pub translate_type_ok :
      (type : TypeLayout) (memory_mapping : MemoryMapping) (access_type : AccessType)
      (vm_addr host_addr : ℕ) (machine : Machine rt)
      → memory_mapping.map access_type vm_addr type.size_of ≡ ok host_addr
      → translate_type_inner rt type memory_mapping access_type vm_addr false machine
        ≡ ok (host_addr, machine)
  unfolding translate_type_inner translate
  translate_type_ok type memory_mapping access_type vm_addr host_addr machine e =
      rw (translate_type_inner, translate, e) refl
