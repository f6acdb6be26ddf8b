-- ===== src/Mem/Calls.antt =====
-- The routines of src/mem/cache.h as one program calls them, one after the other, up to `cleanup`.
use gemstone.Prelude.{ℕ, ◌+◌, ◌≡◌, ◌≢◌, String, Option, none, some, List, [], ◌∷◌, lookup}
use gemstone.Mem.Blocks.{Allocator}
use gemstone.Mem.Namespace.{take_block}
use gemstone.Mem.Cache.{
  Memory, table_of, namespace_of, mem_free_from, mem_free, mem_purge_namespace, mem_alloc,
  mem_realloc, mem_new_g_array, mem_new_g_hash_table, mem_clone, mem_strdup,
}
use gemstone.Mem.Balance.{IsGeneric}

pub data Call : Type 0 where
  alloc clone strdup g_array : String → ℕ → Call
  g_hash_table purge_namespace : String → Call
  realloc : String → ℕ → ℕ → Call
  free_from : String → ℕ → Call
  free : ℕ → Call

-- The memory that a routine leaves.
abbrev pub left : {A : Type 0} → Option (A × Memory) → Option Memory
left none = none
left (some (x, m)) = some m

module _ (a : Allocator) where
  unfoldable pub run_call : Call → Memory → Option Memory
  run_call (alloc name size) m = left (mem_alloc a name size m)
  run_call (clone name size) m = left (mem_clone a name size m)
  run_call (strdup name strlen) m = left (mem_strdup a name strlen m)
  run_call (g_array name size) m = left (mem_new_g_array a name size m)
  run_call (g_hash_table name) m = left (mem_new_g_hash_table a name m)
  run_call (purge_namespace name) m = mem_purge_namespace name m
  run_call (realloc name p size) m = left (mem_realloc a name p size m)
  run_call (free_from name p) m = left (mem_free_from name p m)
  run_call (free p) m = mem_free p m

  -- What a caller has to see to: a size that is not 0 and the memory for what is copied to it, only
  -- memory of `mem_alloc` to `mem_realloc`, no `NULL` to free, and no `mem_free` before the first use.
  abbrev pub IsAllowed : Call → Memory → Type 0
  IsAllowed (alloc name size) m = size ≢ 0
  IsAllowed (clone name size) m = (size ≢ 0) × (a.malloc m.live size ≢ 0)
  IsAllowed (strdup name strlen) m = a.malloc m.live (strlen + 1) ≢ 0
  IsAllowed (g_array name size) m = Unit
  IsAllowed (g_hash_table name) m = Unit
  IsAllowed (purge_namespace name) m = Unit
  IsAllowed (realloc name p size) m =
      (size ≢ 0)
      × (p ≢ 0)
      × IsGeneric (take_block p (namespace_of (lookup (table_of m.namespaces) name)).blocks)
  IsAllowed (free_from name p) m = p ≢ 0
  IsAllowed (free p) m = (p ≢ 0) × (m.namespaces ≢ none)

  -- The memory that the calls leave, if all of them are allowed.
  pub data Runs : List Call → Memory → Memory → Type 0 where
    done : {m : Memory} → Runs [] m m
    next :
        {c : Call} {cs : List Call} {m m' m'' : Memory}
        → IsAllowed c m
        → run_call c m ≡ some m'
        → Runs cs m' m''
        → Runs (c ∷ cs) m m''
