-- ===== src/Mem/Examples.antt =====
-- The theorems on src/mem/cache.c at small programs.
use mathlib.Core.Path.{subst}
use gemstone.Prelude.{
  Table, ℕ, ◌+◌, ◌*◌, ◌≡◌, ◌≢◌, ◌≤◌, refl, Option, some, none, List, [], ◌∷◌, lookup, insert, arith,
}
use gemstone.Mem.Blocks.{Block, generic_block, Allocator, remove, release, acquire}
use gemstone.Mem.Namespace.{
  namespace_new_g_hash_table, namespace_purge, Namespace, no_statistic, namespace_malloc,
  namespace_realloc, realloc_taken, reallocate, take_block, move_block, namespace_new_g_array,
  namespace_free, free_taken,
}
use gemstone.Mem.Cache.{
  Memory, unused, cleanup, mem_alloc, mem_strdup, mem_clone, mem_realloc, mem_new_g_array, mem_free,
  in_namespace, free_in,
}
use gemstone.Mem.Tracked.{KeepsTracked}
use gemstone.Mem.Calls.{
  Call, alloc, strdup, realloc, g_array, free_from, free, run_call, Runs, done, next,
}
use gemstone.Mem.Accounts.{number, IsCounted, KeepsCounted, KeepsCountedAlone, routines-IsCounted}
use gemstone.Mem.Leaks.{run_call-Tracked}
use gemstone.Mem.Programs.{Runs-IsTracked, Runs-cleanup, unused-IsTracked}
use gemstone.Mem.DoubleFree.{namespace_free-twice, FreesOnce, blocks_at}

-- An allocator that takes the next address after the blocks in use.
abbrev next_address : List Block → ℕ
next_address live = 16 * (1 + number live)

abbrev bump : Allocator
bump = record {
  malloc = λ live size. next_address live;
  realloc = λ live p size. 4096 + p;
  g_array_new = λ live size. next_address live;
  g_hash_table_new = next_address;
}

abbrev program : List Call
program = alloc "lex" 24 ∷ strdup "ast" 5 ∷ realloc "lex" 16 48 ∷ g_array "tc" 8 ∷ free 32 ∷ []

abbrev memory_of : Option Memory → Memory
memory_of none = unused
memory_of (some m) = m

abbrev first : Memory
first = memory_of (run_call bump (alloc "lex" 24) unused)

abbrev second : Memory
second = memory_of (run_call bump (strdup "ast" 5) first)

abbrev third : Memory
third = memory_of (run_call bump (realloc "lex" 16 48) second)

abbrev fourth : Memory
fourth = memory_of (run_call bump (g_array "tc" 8) third)

abbrev last : Memory
last = memory_of (run_call bump (free 32) fourth)

literal_ne : (n : ℕ) → n + 1 ≢ 0
literal_ne n h = omega (arith, h)

namespaces_made : {t : Table Namespace} → some t ≢ none
namespaces_made e = subst (λ o. elim o [ none ↦ ⊥ | some t ↦ Unit ]) e tt

program-Runs : Runs bump program unused last
unfolding run_call mem_alloc mem_strdup mem_clone mem_realloc mem_new_g_array mem_free in_namespace
    lookup insert namespace_malloc namespace_realloc realloc_taken reallocate release acquire remove
    take_block move_block namespace_new_g_array free_in namespace_free free_taken number
program-Runs = next (literal_ne 23) refl (
    next (literal_ne 31) refl (
      next (literal_ne 47, literal_ne 15, refl) refl
        (next tt refl (next (literal_ne 31, namespaces_made) refl done))))

Runs-cleanup_example : cleanup last ≡ some []
Runs-cleanup_example = Runs-cleanup bump program-Runs

run_call-Tracked_example : KeepsTracked (run_call bump (free_from "lex" 4112) last)
run_call-Tracked_example =
    run_call-Tracked bump (free_from "lex" 4112) last
      (Runs-IsTracked bump program-Runs unused-IsTracked) (literal_ne 4111)

abbrev two_blocks : Namespace
two_blocks = record {
  statistic = record no_statistic { allocation_count = 2 };
  blocks =
      record { block_ptr = 16; kind = generic_block }
      ∷ record { block_ptr = 32; kind = generic_block }
      ∷ [];
}

two_blocks-IsCounted : IsCounted two_blocks
unfolding number
two_blocks-IsCounted = refl

two_blocks-once : blocks_at 16 two_blocks.blocks ≤ 1
unfolding blocks_at
two_blocks-once = omega arith

routines-IsCounted_example :
    KeepsCounted (namespace_malloc bump 8 two_blocks two_blocks.blocks)
    × KeepsCounted (namespace_realloc bump 16 8 two_blocks two_blocks.blocks)
    × KeepsCounted (namespace_new_g_array bump 8 two_blocks two_blocks.blocks)
    × KeepsCounted (namespace_new_g_hash_table bump two_blocks two_blocks.blocks)
    × KeepsCounted (namespace_free 16 two_blocks two_blocks.blocks)
    × KeepsCountedAlone (namespace_purge two_blocks two_blocks.blocks)
routines-IsCounted_example =
    routines-IsCounted bump two_blocks two_blocks.blocks 16 8 two_blocks-IsCounted

namespace_free-twice_example : FreesOnce 16 (namespace_free 16 two_blocks two_blocks.blocks)
namespace_free-twice_example =
    namespace_free-twice 16 two_blocks two_blocks.blocks (λ b. omega arith) (literal_ne 15)
      two_blocks-once
