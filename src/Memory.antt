-- ===== src/Memory.antt =====
-- The byte buffers of solana_rbpf (`AlignedMemory`), which the executor uses and this repository does
-- not implement: the operations as parameters, and what they are documented to do as hypotheses.
pub mod Vector
use solana_bpf_simulator.Prelude.{
  ℕ, ◌+◌, ◌≤◌, ◌<◌, ◌≡◌, Option, none, some, List, [], ◌++◌, length, replicate,
}

-- Values of type T are given by their bytes in memory. `as_slice_mut m l` is `m` after its slice has
-- been changed into `l` through the reference that `as_slice_mut` returns.
pub record AlignedMemory : Type 1 where
  pub Memory : Type 0
  pub with_capacity : ℕ → Memory
  pub zero_filled : ℕ → Memory
  pub as_slice : Memory → List ℕ
  pub as_slice_mut : Memory → List ℕ → Memory
  pub write_unchecked : Memory → List ℕ → Memory
  pub write_all_unchecked : Memory → List ℕ → Memory
  pub fill_write : Memory → ℕ → ℕ → Option Memory
  -- How many bytes the allocation holds. The unchecked writes are defined up to there only.
  pub capacity : Memory → ℕ

pub record IsAlignedMemory (mem : AlignedMemory) : Type 0 where
  pub as_slice-with_capacity : (n : ℕ) → mem.as_slice (mem.with_capacity n) ≡ []
  pub capacity-with_capacity : (n : ℕ) → mem.capacity (mem.with_capacity n) ≡ n
  pub as_slice-zero_filled : (n : ℕ) → mem.as_slice (mem.zero_filled n) ≡ replicate n 0
  -- A changed slice has the length that it had; the last change counts.
  pub as_slice-as_slice_mut :
      (m : mem.Memory) (l : List ℕ)
      → length l ≡ length (mem.as_slice m)
      → mem.as_slice (mem.as_slice_mut m l) ≡ l
  pub as_slice_mut-as_slice_mut :
      (m : mem.Memory) (k l : List ℕ)
      → length k ≡ length (mem.as_slice m)
      → length l ≡ length (mem.as_slice m)
      → mem.as_slice_mut (mem.as_slice_mut m k) l ≡ mem.as_slice_mut m l
  -- Within the capacity a write appends, and two writes are one.
  pub as_slice-write_all :
      (m : mem.Memory) (v : List ℕ)
      → length (mem.as_slice m) + length v ≤ mem.capacity m
      → mem.as_slice (mem.write_all_unchecked m v) ≡ mem.as_slice m ++ v
  pub capacity-write_all :
      (m : mem.Memory) (v : List ℕ)
      → length (mem.as_slice m) + length v ≤ mem.capacity m
      → mem.capacity (mem.write_all_unchecked m v) ≡ mem.capacity m
  pub write_all-write_all :
      (m : mem.Memory) (v w : List ℕ)
      → length (mem.as_slice m) + length v + length w ≤ mem.capacity m
      → mem.write_all_unchecked (mem.write_all_unchecked m v) w ≡ mem.write_all_unchecked m (v ++ w)
  pub write_unchecked-write_all :
      (m : mem.Memory) (v : List ℕ)
      → length (mem.as_slice m) + length v ≤ mem.capacity m
      → mem.write_unchecked m v ≡ mem.write_all_unchecked m v
  -- `fill_write` checks the capacity.
  pub fill_write-fits :
      (m : mem.Memory) (num value : ℕ)
      → length (mem.as_slice m) + num ≤ mem.capacity m
      → mem.fill_write m num value ≡ some (mem.write_all_unchecked m (replicate num value))
  pub fill_write-full :
      (m : mem.Memory) (num value : ℕ)
      → mem.capacity m < length (mem.as_slice m) + num
      → mem.fill_write m num value ≡ none
