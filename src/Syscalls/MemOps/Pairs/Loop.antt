-- ===== src/Syscalls/MemOps/Pairs/Loop.antt =====
-- The rounds of `iter_memory_pair_chunks` when it copies.
use solana_bpf_simulator.Prelude.{
  ℕ, zero, suc, ◌+◌, ◌≤◌, ◌<◌, ◌≡◌, refl, ap, subst, ◌∙◌, Bool, true, false, Option, none, some,
  ◌⊎◌, inl, inr, min, arith,
}
use solana_bpf_simulator.Prelude.Outcome.{Outcome, ok, err, panic}
use solana_bpf_simulator.Prelude.Method.{◌>>=◌}
use solana_bpf_simulator.Words.{u64_mod}
use solana_bpf_simulator.Syscalls.Host
use solana_bpf_simulator.Syscalls.Host.{Host}
use solana_bpf_simulator.Syscalls.Types.{
  AccessType, EbpfError, MemoryRegion, MemoryMapping, Runtime, Machine, Error,
}
use solana_bpf_simulator.Syscalls.MemOps.{MemoryChunkIterator, Chunk, ptr_copy}
use solana_bpf_simulator.Syscalls.MemOps.Pairs.{
  Side, memory_chunk, piece_addr, advanced, process_pair, round, pair_loop,
}
use solana_bpf_simulator.Syscalls.MemOps.Pairs.Bytes.{Copied, copy_piece}
use solana_bpf_simulator.Syscalls.MemOps.Pairs.Sides.{
  Maps, Unmapped, IsGood, Holds, Chunked, Fetched, offset,
}
use solana_bpf_simulator.Syscalls.MemOps.Pairs.Fetch.{memory_chunk-Fetched}
use solana_bpf_simulator.Syscalls.MemOps.Pairs.Pieces.{
  piece_addr-offset, piece_within, advanced-Chunked,
}
use solana_bpf_simulator.Syscalls.MemOps.Pairs.Direction.{
  Done, Ordered, Done-step, Done-old, Done-new, Done-unread,
}

module _ (rt : Runtime) (h : ℕ → ℕ) (apart : (a b : ℕ) → h a ≡ h b → a ≡ b)
    (memory_mapping : MemoryMapping) (maps : Maps memory_mapping h) (src_addr dst_addr n : ℕ)
    (src_small : src_addr + n < u64_mod) (dst_small : dst_addr + n < u64_mod) (reverse : Bool)
    (ordered : Ordered reverse src_addr dst_addr n) where
  abbrev pub copy : ℕ → ℕ → ℕ → Machine rt → Outcome (Error rt × Machine rt) (Unit {0} × Machine rt)
  copy src_host dst_host len = ptr_copy rt src_host dst_host len

  -- The two sides between rounds.
  abbrev pub Src : ℕ → Side → Type 0
  Src p side =
      Chunked h memory_mapping maps AccessType.load src_addr n src_small reverse p side.iter
        side.chunk

  abbrev pub Dst : ℕ → Side → Type 0
  Dst p side =
      Chunked h memory_mapping maps AccessType.store dst_addr n dst_small reverse p side.iter
        side.chunk

  -- After `p` bytes.
  abbrev pub Moved : Machine rt → ℕ → Machine rt → Type 0
  Moved start p machine =
      Copied h apart src_addr dst_addr (Done reverse n p) start.host machine.host
      × (machine.context ≡ start.context)

  module _ (p : ℕ) (s d : Chunk) (s_it d_it : MemoryChunkIterator)
      (s_held : Holds h memory_mapping maps AccessType.load src_addr n src_small reverse p s_it s)
      (d_held : Holds h memory_mapping maps AccessType.store dst_addr n dst_small reverse p d_it d)
      (s_good : IsGood h s) (d_good : IsGood h d) where
    len : ℕ
    len = min s.len d.len

    len_bounds : (0 < len) × (len ≤ s.len) × (p + len ≤ n)
    unfolding len
    len_bounds = omega (arith, s_good.positive, d_good.positive, s_held.rest)

    dst_bound : len ≤ d.len
    unfolding len
    dst_bound = omega arith

    after : Machine rt → Machine rt
    after machine = record machine {
      host =
          Host.store machine.host (h (dst_addr + offset reverse n p len))
            (Host.load machine.host (h (src_addr + offset reverse n p len)) len);
    }

    process_pair_lem :
        (machine : Machine rt)
        → process_pair rt reverse copy (s, s_it) (d, d_it) machine
          ≡ ok (
            (
              record { iter = s_it; chunk = advanced reverse len s },
              record { iter = d_it; chunk = advanced reverse len d },
            ),
            after machine,
          )
    unfolding process_pair len after ptr_copy
    process_pair_lem machine =
        rw
          (
            ◌>>=◌,
            at_host s src_addr s_good
                (piece_addr-offset h memory_mapping maps AccessType.load src_addr n src_small
                  reverse p len s_it s s_held s_most)
                (piece_within h memory_mapping maps AccessType.load src_addr n src_small reverse p
                  len s_it s s_held s_good s_most),
            at_host d dst_addr d_good
                (piece_addr-offset h memory_mapping maps AccessType.store dst_addr n dst_small
                  reverse p len d_it d d_held d_most)
                (piece_within h memory_mapping maps AccessType.store dst_addr n dst_small reverse p
                  len d_it d d_held d_good d_most),
          )
          refl
      where
        s_most : len ≤ s.len
        s_most = omega arith

        d_most : len ≤ d.len
        d_most = omega arith

        at_host :
            (c : Chunk) (base : ℕ)
            → IsGood h c
            → piece_addr reverse len c ≡ base + offset reverse n p len
            → (c.region.vm_addr ≤ base + offset reverse n p len)
              × (base + offset reverse n p len + len ≤ c.region.vm_addr_end)
            → c.region.vm_to_host (piece_addr reverse len c) len
              ≡ ok (h (base + offset reverse n p len))
        at_host c base good at within =
            ap (λ a. MemoryRegion.vm_to_host c.region a len) at
            ∙ good.mapped.to_host _ len len_bounds.0 within.0 within.1

    after-Moved :
        (start machine : Machine rt) → Moved start p machine → Moved start (p + len) (after machine)
    unfolding after len
    after-Moved start machine moved = (
      copy_piece h apart src_addr dst_addr (Done reverse n p) (Done reverse n (p + len)) start.host
          machine.host (offset reverse n p len) len moved.0
          (λ i below.
            at s src_addr s_good
              (piece_within h memory_mapping maps AccessType.load src_addr n src_small reverse p len
                s_it s s_held s_good (omega arith))
              i below)
          (λ i below.
            at d dst_addr d_good
              (piece_within h memory_mapping maps AccessType.store dst_addr n dst_small reverse p
                len d_it d d_held d_good (omega arith))
              i below)
          (λ j i d' below. Done-unread reverse n src_addr dst_addr p len j i ordered most d' below)
          (λ j d'. Done-step reverse n p len j most d') (λ j d'. Done-old reverse n p len j d')
          (λ i below. Done-new reverse n p len i most below),
      moved.1,
    )
      where
        most : p + len ≤ n
        most = omega (arith, s_held.rest)

        at :
            (c : Chunk) (base : ℕ)
            → IsGood h c
            → (c.region.vm_addr ≤ base + offset reverse n p len)
              × (base + offset reverse n p len + len ≤ c.region.vm_addr_end)
            → (i : ℕ) → i < len
            → h (base + (offset reverse n p len + i)) ≡ h (base + offset reverse n p len) + i
        at c base good within i below =
            ap h {x = base + (offset reverse n p len + i)} {y = base + offset reverse n p len + i}
              (omega arith)
            ∙ good.mapped.contiguous (base + offset reverse n p len) i within.0
                (omega (arith, within.1))

  abbrev pub Lost : Type 0
  Lost =
      Unmapped memory_mapping AccessType.load src_addr n
      ⊎ Unmapped memory_mapping AccessType.store dst_addr n

  -- All is moved; or some of it, in the order of the direction, and an error, since a byte has no region.
  -- There is no panic, and the rounds are enough.
  unfoldable pub Ends : Machine rt → Outcome (Error rt × Machine rt) (Bool × Machine rt) → Type 0
  Ends start (ok (true, machine)) = Moved start n machine
  Ends start (ok (false, machine)) = ⊥
  Ends start (err (e, machine)) = Lost × ((p : ℕ) × (p ≤ n) × Moved start p machine)
  Ends start panic = ⊥

  pub pair_loop-Ends :
      (start : Machine rt) (fuel p : ℕ) (src dst : Side) (machine : Machine rt)
      → n < p + fuel
      → p ≤ n
      → Src p src
      → Dst p dst
      → Moved start p machine
      → Ends start (pair_loop rt reverse copy fuel src dst machine)
  unfolding pair_loop round Ends
  pair_loop-Ends start zero p src dst machine enough most s d moved = absurd (omega arith)
  pair_loop-Ends start (suc fuel) p src dst machine enough most s d moved =
      from_src (memory_chunk reverse src) refl
        (memory_chunk-Fetched h memory_mapping maps AccessType.load src_addr n src_small reverse p
          src most s)
        (pair_loop-Ends start fuel)
    where
      Again : Type 0
      Again =
          (p' : ℕ) (src' dst' : Side) (machine' : Machine rt)
          → n < p' + fuel
          → p' ≤ n
          → Src p' src'
          → Dst p' dst'
          → Moved start p' machine'
          → Ends start (pair_loop rt reverse copy fuel src' dst' machine')

      Result : Type 0
      Result = Ends start (pair_loop rt reverse copy (suc fuel) src dst machine)

      all_moved : p ≡ n → Moved start n machine
      all_moved end = subst (λ k. Moved start k machine) end moved

      from_dst :
          (sc : Chunk) (s_it : MemoryChunkIterator)
          → memory_chunk reverse src ≡ ok (some (sc, s_it))
          → Holds h memory_mapping maps AccessType.load src_addr n src_small reverse p s_it sc
          → IsGood h sc
          → (o : Outcome EbpfError (Option (Chunk × MemoryChunkIterator)))
          → memory_chunk reverse dst ≡ o
          → Fetched h memory_mapping maps AccessType.store dst_addr n dst_small reverse p o
          → Again
          → Result
      from_dst sc s_it eq held good (err e) eq' f again =
          rw (◌>>=◌, eq, eq') (inr f, (p, most, moved))
      from_dst sc s_it eq held good panic eq' f again = absurd f
      from_dst sc s_it eq held good (ok none) eq' end again = rw (◌>>=◌, eq, eq') (all_moved end)
      from_dst sc s_it eq held good (ok (some (dc, d_it))) eq' (held', good') again =
          let bounds = len_bounds p sc dc s_it d_it held held' good good' in
          rw (◌>>=◌, eq, eq', process_pair_lem p sc dc s_it d_it held held' good good' machine)
            (again (p + len p sc dc s_it d_it held held' good good')
              (record {
                iter = s_it;
                chunk = advanced reverse (len p sc dc s_it d_it held held' good good') sc;
              })
              (record {
                iter = d_it;
                chunk = advanced reverse (len p sc dc s_it d_it held held' good good') dc;
              })
              (after p sc dc s_it d_it held held' good good' machine) (omega (arith, bounds))
              bounds.2
              (advanced-Chunked h memory_mapping maps AccessType.load src_addr n src_small reverse p
                _ s_it sc held good bounds.1)
              (advanced-Chunked h memory_mapping maps AccessType.store dst_addr n dst_small reverse
                p _ d_it dc held' good' (dst_bound p sc dc s_it d_it held held' good good'))
              (after-Moved p sc dc s_it d_it held held' good good' start machine moved))

      from_src :
          (o : Outcome EbpfError (Option (Chunk × MemoryChunkIterator)))
          → memory_chunk reverse src ≡ o
          → Fetched h memory_mapping maps AccessType.load src_addr n src_small reverse p o
          → Again
          → Result
      from_src (err e) eq f again = rw (◌>>=◌, eq) (inl f, (p, most, moved))
      from_src panic eq f again = absurd f
      from_src (ok none) eq end again = rw (◌>>=◌, eq) (all_moved end)
      from_src (ok (some (sc, s_it))) eq (held, good) again =
          from_dst sc s_it eq held good (memory_chunk reverse dst) refl
            (memory_chunk-Fetched h memory_mapping maps AccessType.store dst_addr n dst_small
              reverse p dst most d)
            again
