-- ===== src/Syscalls/MemOps/Pairs/Sides.antt =====
-- The two iterators of `iter_memory_pair_chunks` between rounds: where a side stands, the chunk that it
-- gives, and where it stands behind a piece of the chunk.
use solana_bpf_simulator.Prelude.{
  ℕ, ◌+◌, ◌-◌, ◌≤◌, ◌<◌, ◌≡◌, ◌≢◌, Bool, true, false, Option, none, some, if◌then◌else◌, arith,
}
use solana_bpf_simulator.Prelude.Outcome.{Outcome, ok, err, panic}
use solana_bpf_simulator.Words.{u64_mod}
use solana_bpf_simulator.Syscalls.Types.{AccessType, EbpfError, MemoryRegion, MemoryMapping}
use solana_bpf_simulator.Syscalls.MemOps.{MemoryChunkIterator, Chunk}

-- A region lies in one piece at the host. Of an empty range nothing is asked: the end of a region may be
-- the start of another one, which lies elsewhere.
pub record IsMapped (h : ℕ → ℕ) (r : MemoryRegion) : Type 0 where
  pub to_host :
      (at len : ℕ)
      → 0 < len
      → r.vm_addr ≤ at
      → at + len ≤ r.vm_addr_end
      → r.vm_to_host at len ≡ ok (h at)
  pub contiguous : (at i : ℕ) → r.vm_addr ≤ at → at + i < r.vm_addr_end → h (at + i) ≡ h at + i

-- The mapping finds regions that have the address inside, or an error, and `h` says where their bytes
-- are at the host.
pub record Maps (memory_mapping : MemoryMapping) (h : ℕ → ℕ) : Type 0 where
  pub inside :
      (access : AccessType) (addr : ℕ) (r : MemoryRegion)
      → memory_mapping.region access addr ≡ ok r
      → (r.vm_addr ≤ addr) × (addr < r.vm_addr_end)
  pub mapped :
      (access : AccessType) (addr : ℕ) (r : MemoryRegion)
      → memory_mapping.region access addr ≡ ok r
      → IsMapped h r
  pub returns : (access : AccessType) (addr : ℕ) → memory_mapping.region access addr ≢ panic

-- A byte of the range has no region.
abbrev pub Unmapped : MemoryMapping → AccessType → ℕ → ℕ → Type 0
Unmapped memory_mapping access base n =
    (j : ℕ) × (j < n) × (e : EbpfError) × (memory_mapping.region access (base + j) ≡ err e)

-- A chunk is a part of its region, and is not empty.
pub record IsGood (h : ℕ → ℕ) (c : Chunk) : Type 0 where
  pub mapped : IsMapped h c.region
  pub first : c.region.vm_addr ≤ c.vm_addr
  pub last : c.vm_addr + c.len ≤ c.region.vm_addr_end
  pub positive : 0 < c.len

-- The offset of a piece of `k` bytes, after `p` of `n` bytes.
abbrev pub offset : Bool → ℕ → ℕ → ℕ → ℕ
offset true n p k = n - p - k
offset false n p k = p

module _ (h : ℕ → ℕ) (memory_mapping : MemoryMapping) (maps : Maps memory_mapping h)
    (access : AccessType) (base n : ℕ) (small : base + n < u64_mod) where
  -- The iterator, where `p` bytes are processed and there is no chunk, forwards and backwards.
  pub record Waits (reverse : Bool) (p : ℕ) (it : MemoryChunkIterator) : Type 0 where
    pub mapping : it.memory_mapping ≡ memory_mapping
    pub access_type : it.access_type ≡ access
    pub front : it.vm_addr_start ≡ (if reverse then base else base + p)
    pub back : it.vm_addr_end ≡ (if reverse then base + (n - p) else base + n)

  -- The iterator, where `p` bytes are processed, behind the chunk that is being processed.
  pub record Holds (reverse : Bool) (p : ℕ) (it : MemoryChunkIterator) (c : Chunk) : Type 0 where
    pub mapping : it.memory_mapping ≡ memory_mapping
    pub access_type : it.access_type ≡ access
    pub front : it.vm_addr_start ≡ (if reverse then base else c.vm_addr + c.len)
    pub back : it.vm_addr_end ≡ (if reverse then c.vm_addr else base + n)
    pub first : (if reverse then base + (n - p) ≡ c.vm_addr + c.len else c.vm_addr ≡ base + p)
    pub last : base ≤ c.vm_addr
    pub rest : p + c.len ≤ n

  -- Where the iterator begins.
  pub new-Waits :
      (reverse : Bool) (it : MemoryChunkIterator)
      → it.memory_mapping ≡ memory_mapping
      → it.access_type ≡ access
      → it.vm_addr_start ≡ base
      → it.vm_addr_end ≡ base + n
      → Waits reverse 0 it
  new-Waits true it m a s e = record {
    mapping = m;
    access_type = a;
    front = omega arith;
    back = omega arith;
  }
  new-Waits false it m a s e = record {
    mapping = m;
    access_type = a;
    front = omega arith;
    back = omega arith;
  }

  abbrev pub Chunked : Bool → ℕ → MemoryChunkIterator → Option Chunk → Type 0
  Chunked reverse p it none = Waits reverse p it
  Chunked reverse p it (some c) = Holds reverse p it c × IsGood h c

  abbrev pub Fetched : Bool → ℕ → Outcome EbpfError (Option (Chunk × MemoryChunkIterator)) → Type 0
  Fetched reverse p (ok none) = p ≡ n
  Fetched reverse p (ok (some (c, it))) = Holds reverse p it c × IsGood h c
  Fetched reverse p (err e) = Unmapped memory_mapping access base n
  Fetched reverse p panic = ⊥
