-- ===== src/Syscalls/MemOps/Pairs.antt =====
-- src/instruction_executor/syscalls/mem_ops.rs: `memmove_non_contiguous`, which moves a range of the
-- program's memory that may lie in several regions, chunk by chunk.
pub mod Bytes
pub mod Sides
pub mod Fetch
pub mod Pieces
pub mod Direction
pub mod Loop
pub mod Moves
use solana_bpf_simulator.Prelude.{
  ℕ, zero, suc, Bool, true, false, Option, none, some, min, ltb, ◌==◌, if◌then◌else◌,
}
use solana_bpf_simulator.Prelude.Outcome.{Outcome, ok, err, panic}
use solana_bpf_simulator.Prelude.Method.{pure, throw, abort, ◌>>=◌, ◌>>◌}
use solana_bpf_simulator.Words.{sub64, saturating_add, saturating_sub}
use solana_bpf_simulator.Syscalls.Types.{
  AccessType, EbpfError, ebpf_error, MemoryMapping, Runtime, Syscall,
}
use solana_bpf_simulator.Syscalls.MemOps
use solana_bpf_simulator.Syscalls.MemOps.{
  MemoryChunkIterator, Chunk, Next, next, next_back, ptr_copy,
}

-- An iterator with the chunk that is being processed: `src_chunk_iter` and `src_chunk`, or the others.
pub record Side : Type 0 where
  pub iter : MemoryChunkIterator
  pub chunk : Option Chunk

-- What the iterator gives, where an error drops it.
abbrev pub moved_on : Option Next → Outcome EbpfError (Option (Chunk × MemoryChunkIterator))
moved_on none = ok none
moved_on (some (ok (chunk, iter))) = ok (some (chunk, iter))
moved_on (some (err (e, _))) = err e
moved_on (some panic) = panic

-- `memory_chunk!`: the current chunk, or the next one; `none` where the loop breaks.
unfoldable pub memory_chunk : Bool → Side → Outcome EbpfError (Option (Chunk × MemoryChunkIterator))
memory_chunk reverse side = elim side.chunk [
  | some chunk ↦ ok (some (chunk, side.iter))
  | none ↦ moved_on (if reverse then next_back side.iter else next side.iter)
]

-- The address in a chunk from which `len` bytes are processed.
unfoldable pub piece_addr : Bool → ℕ → Chunk → ℕ
piece_addr true len chunk = saturating_sub (saturating_add chunk.vm_addr chunk.len) len
piece_addr false len chunk = chunk.vm_addr

-- What is left of a chunk after `len` bytes; `none` where that is nothing.
unfoldable pub advanced : Bool → ℕ → Chunk → Option Chunk
advanced reverse len chunk =
    let remaining = saturating_sub chunk.len len in
    if remaining == 0
    then none
    else some (record chunk {
      len = remaining;
      vm_addr = if reverse then chunk.vm_addr else saturating_add chunk.vm_addr len;
    })

module _ (rt : Runtime) where
  abbrev pub raised : {A : Type 0} → Outcome EbpfError A → Syscall rt A
  raised (ok a) = pure a
  raised (err e) = throw (ebpf_error e)
  raised panic = abort

  module _ (reverse : Bool) (fun : ℕ → ℕ → ℕ → Syscall rt (Unit {0})) where
    -- The part of a round behind the two chunks, and the two sides after it.
    unfoldable pub process_pair :
        Chunk × MemoryChunkIterator → Chunk × MemoryChunkIterator → Syscall rt (Side × Side)
    process_pair (src_chunk, src_iter) (dst_chunk, dst_iter) = do
      let chunk_len = min src_chunk.len dst_chunk.len
      src_host_addr ←
          raised (src_chunk.region.vm_to_host (piece_addr reverse chunk_len src_chunk) chunk_len)
      dst_host_addr ←
          raised (dst_chunk.region.vm_to_host (piece_addr reverse chunk_len dst_chunk) chunk_len)
      fun src_host_addr dst_host_addr chunk_len
      pure (
        record { iter = src_iter; chunk = advanced reverse chunk_len src_chunk },
        record { iter = dst_iter; chunk = advanced reverse chunk_len dst_chunk },
      )

    -- A round: `none` where the loop breaks.
    unfoldable pub round : Side → Side → Syscall rt (Option (Side × Side))
    round src dst = do
      src_chunk ← raised (memory_chunk reverse src)
      elim src_chunk [
        | none ↦ pure none
        | some s ↦ do
          dst_chunk ← raised (memory_chunk reverse dst)
          elim dst_chunk [
            | none ↦ pure none
            | some d ↦ do after ← process_pair s d; pure (some after)
          ]
      ]

    -- The loop, for as many rounds as there is fuel; `false` where the fuel runs out.
    unfoldable pub pair_loop : ℕ → Side → Side → Syscall rt Bool
    pair_loop zero src dst = pure false
    pair_loop (suc fuel) src dst = do
      after ← round src dst
      elim after [ none ↦ pure true | some (src', dst') ↦ pair_loop fuel src' dst' ]

  -- `true` stands for `Ok(T::default())`, `false` for fuel that ran out: there is a round for each
  -- byte, and one more.
  unfoldable pub iter_memory_pair_chunks :
      AccessType
      → ℕ
      → AccessType
      → ℕ
      → ℕ
      → MemoryMapping
      → Bool
      → (ℕ → ℕ → ℕ → Syscall rt (Unit {0}))
      → Syscall rt Bool
  iter_memory_pair_chunks src_access src_addr dst_access dst_addr n_bytes memory_mapping reverse
        fun =
      do
        src_chunk_iter ← raised (MemOps.new memory_mapping src_access src_addr n_bytes)
        dst_chunk_iter ← raised (MemOps.new memory_mapping dst_access dst_addr n_bytes)
        pair_loop reverse fun (suc n_bytes) (record { iter = src_chunk_iter; chunk = none })
            (record { iter = dst_chunk_iter; chunk = none })

  unfoldable pub memmove_non_contiguous : ℕ → ℕ → ℕ → MemoryMapping → Syscall rt Bool
  memmove_non_contiguous dst_addr src_addr n memory_mapping =
      iter_memory_pair_chunks AccessType.load src_addr AccessType.store dst_addr n memory_mapping
        (ltb (sub64 dst_addr src_addr) n)
        (λ src_host dst_host len. ptr_copy rt src_host dst_host len)
