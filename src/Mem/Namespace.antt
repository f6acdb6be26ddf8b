-- ===== src/Mem/Namespace.antt =====
-- Namespaces: `namespace_malloc` to `namespace_new_g_hash_table` of src/mem/cache.c.
use gemstone.Prelude.{
  ℕ, ◌+◌, ◌%◌, Bool, true, false, Option, none, some, List, [], ◌∷◌, ◌++◌, ◌==◌, if◌then◌else◌,
}
use gemstone.Mem.Blocks.{
  Block, generic_block, glib_array, glib_hash_table, block_kind_code, Allocator, M, pure, ◌>>=◌,
  ◌>>◌, abort, release, acquire,
}

-- A `size_t` wraps.
abbrev pub size_mod : ℕ
size_mod = 18446744073709551616

pub record Statistic : Type 0 where
  pub bytes_allocated : ℕ
  pub allocation_count : ℕ
  pub reallocation_count : ℕ
  pub manual_free_count : ℕ
  pub faulty_reallocations : ℕ
  pub faulty_allocations : ℕ
  pub purged_free_count : ℕ

pub record Namespace : Type 0 where
  pub statistic : Statistic
  pub blocks : List Block

abbrev pub no_statistic : Statistic
no_statistic = record {
  bytes_allocated = 0;
  allocation_count = 0;
  reallocation_count = 0;
  manual_free_count = 0;
  faulty_reallocations = 0;
  faulty_allocations = 0;
  purged_free_count = 0;
}

-- The memory of the namespace's own structure is taken to be there.
abbrev pub namespace_new : Namespace
namespace_new = record { statistic = no_statistic; blocks = [] }

-- A new block of a number of bytes, in the list and in the statistics.
abbrev pub append_block : Block → ℕ → Namespace → Namespace
append_block b size ns = record {
  statistic = record ns.statistic {
    bytes_allocated = (ns.statistic.bytes_allocated + size) % size_mod;
    allocation_count = (ns.statistic.allocation_count + 1) % size_mod;
  };
  blocks = ns.blocks ++ b ∷ [];
}

abbrev pub faulty_allocation : Namespace → Namespace
faulty_allocation ns = record ns {
  statistic = record ns.statistic {
    faulty_allocations = (ns.statistic.faulty_allocations + 1) % size_mod;
  };
}

-- The block found by `namespace_free`: the first of the address, and the others.
unfoldable pub take_block : ℕ → List Block → Option (Block × List Block)
take_block p [] = none
take_block p (b ∷ bs) =
    if b.block_ptr == p
    then some (b, bs)
    else elim (take_block p bs) [ none ↦ none | some (c, rest) ↦ some (c, b ∷ rest) ]

-- The blocks with another address at the first block of an address.
unfoldable pub move_block : ℕ → ℕ → List Block → List Block
move_block p q [] = []
move_block p q (b ∷ bs) =
    if b.block_ptr == p then record b { block_ptr = q } ∷ bs else b ∷ move_block p q bs

abbrev pub count_free : Statistic → Statistic
count_free s = record s { manual_free_count = (s.manual_free_count + 1) % size_mod }

unfoldable pub free_taken : ℕ → Namespace → Option (Block × List Block) → M (Namespace × Bool)
free_taken p ns none = pure (ns, false)
free_taken p ns (some (b, rest)) =
    if p == 0
    then abort
    else do release b; pure (record { statistic = count_free ns.statistic; blocks = rest }, true)

-- `namespace_free`.
unfoldable pub namespace_free : ℕ → Namespace → M (Namespace × Bool)
namespace_free p ns = free_taken p ns (take_block p ns.blocks)

-- The loop of `namespace_purge`: the blocks are freed, and counted.
unfoldable pub purge_blocks : List Block → Statistic → M Statistic
purge_blocks [] s = pure s
purge_blocks (b ∷ bs) s = do
  release b
  purge_blocks bs (record s { purged_free_count = (s.purged_free_count + 1) % size_mod })

unfoldable pub namespace_purge : Namespace → M Namespace
namespace_purge ns = do
  s ← purge_blocks ns.blocks ns.statistic
  pure (record { statistic = s; blocks = [] })

module _ (a : Allocator) where
  -- `namespace_malloc`, with the address.
  unfoldable pub namespace_malloc : ℕ → Namespace → M (Namespace × ℕ)
  namespace_malloc size ns live =
      let block : Block = record { block_ptr = a.malloc live size; kind = generic_block } in
      if size == 0
      then none
      else if block.block_ptr == 0
      then some ((faulty_allocation ns, 0), live)
      else some ((append_block block size ns, block.block_ptr), block ∷ live)

  -- `realloc` of a block: the new address. It is undefined on a block that `malloc` did not give, and
  -- for no bytes at all.
  unfoldable pub reallocate : Block → ℕ → M ℕ
  reallocate b size live =
      let q = a.realloc live b.block_ptr size in
      if size == 0
      then none
      else if block_kind_code b.kind == block_kind_code generic_block
      then if q == 0
        then some (0, live)
        else (do release b; acquire (record b { block_ptr = q }); pure q) live
      else none

  abbrev pub count_realloc : ℕ → Statistic → Statistic
  count_realloc size s = record s {
    bytes_allocated = (s.bytes_allocated + size) % size_mod;
    reallocation_count = (s.reallocation_count + 1) % size_mod;
  }

  abbrev pub count_faulty : Statistic → Statistic
  count_faulty s = record s { faulty_reallocations = (s.faulty_reallocations + 1) % size_mod }

  unfoldable pub realloc_taken : ℕ → ℕ → Namespace → Option (Block × List Block) → M (Namespace × ℕ)
  realloc_taken p size ns none = pure (ns, 0)
  realloc_taken p size ns (some (b, rest)) = do
    q ← reallocate b size
    pure (
        if q == 0 then (record ns { statistic = count_faulty ns.statistic }, 0) else (
          record { statistic = count_realloc size ns.statistic; blocks = move_block p q ns.blocks },
          q,
        ))

  -- `namespace_realloc`, with the address.
  unfoldable pub namespace_realloc : ℕ → ℕ → Namespace → M (Namespace × ℕ)
  namespace_realloc p size ns = realloc_taken p size ns (take_block p ns.blocks)

  -- `namespace_new_g_array` and `namespace_new_g_hash_table`: a pointer's bytes are counted.
  unfoldable pub namespace_new_g_array : ℕ → Namespace → M (Namespace × ℕ)
  namespace_new_g_array size ns live =
      let block : Block = record { block_ptr = a.g_array_new live size; kind = glib_array } in
      some ((append_block block 8 ns, block.block_ptr), block ∷ live)

  unfoldable pub namespace_new_g_hash_table : Namespace → M (Namespace × ℕ)
  namespace_new_g_hash_table ns live =
      let block : Block = record { block_ptr = a.g_hash_table_new live; kind = glib_hash_table } in
      some ((append_block block 8 ns, block.block_ptr), block ∷ live)
