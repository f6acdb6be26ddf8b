-- ===== src/Mem/Cache.antt =====
-- The table of namespaces: `check_namespace`, the `mem_` routines and `cleanup` of src/mem/cache.c.
use gemstone.Prelude.{
  ℕ, ◌+◌, ◌%◌, String, Bool, true, false, Option, none, some, List, [], ◌∷◌, ◌==◌, if◌then◌else◌,
  Table, lookup, insert,
}
use gemstone.Mem.Blocks.{Block, Allocator, M}
use gemstone.Mem.Namespace.{
  size_mod, Statistic, Namespace, namespace_new, namespace_free, namespace_purge, namespace_malloc,
  namespace_realloc, namespace_new_g_array, namespace_new_g_hash_table,
}

-- The blocks in use, and the table `namespaces`, which is `NULL` until the first use.
pub record Memory : Type 0 where
  pub live : List Block
  pub namespaces : Option (Table Namespace)

abbrev pub unused : Memory
unused = record { live = []; namespaces = none }

abbrev pub table_of : Option (Table Namespace) → Table Namespace
table_of none = []
table_of (some t) = t

abbrev pub namespace_of : Option Namespace → Namespace
namespace_of none = namespace_new
namespace_of (some ns) = ns

abbrev pub stored :
    {A : Type 0}
    → String
    → Table Namespace
    → Option ((Namespace × A) × List Block)
    → Option (A × Memory)
stored name t none = none
stored name t (some ((ns, x), live)) =
    some (x, record { live = live; namespaces = some (insert t name ns) })

-- A routine on the namespace that `check_namespace` finds or makes.
unfoldable pub in_namespace :
    {A : Type 0} → String → (Namespace → M (Namespace × A)) → Memory → Option (A × Memory)
in_namespace name f m =
    let t = table_of m.namespaces in stored name t (f (namespace_of (lookup t name)) m.live)

-- `mem_free_from`.
unfoldable pub mem_free_from : String → ℕ → Memory → Option (Bool × Memory)
mem_free_from name p m = in_namespace name (namespace_free p) m

-- The loop of `mem_free` over the namespaces, up to the first that holds the block.
unfoldable pub free_in : ℕ → Table Namespace → M (Table Namespace)
free_in p [] live = some ([], live)
free_in p ((name, ns) ∷ t) live = elim (namespace_free p ns live) [
  | none ↦ none
  | some ((ns', true), live') ↦ some ((name, ns') ∷ t, live')
  | some ((ns', false), live') ↦ elim (free_in p t live') [
    | none ↦ none
    | some (t', live'') ↦ some ((name, ns') ∷ t', live'')
  ]
]

abbrev pub with_table : Option (Table Namespace × List Block) → Option Memory
with_table none = none
with_table (some (t, live)) = some (record { live = live; namespaces = some t })

-- `mem_free`. To iterate over a table that was never made is undefined.
unfoldable pub mem_free : ℕ → Memory → Option Memory
mem_free p m = elim m.namespaces [ none ↦ none | some t ↦ with_table (free_in p t m.live) ]

unfoldable pub purged : String → Table Namespace → Option (Namespace × List Block) → Option Memory
purged name t none = none
purged name t (some (ns, live)) =
    some (record { live = live; namespaces = some (insert t name ns) })

-- `mem_purge_namespace`; a namespace that is not there is only warned of.
unfoldable pub mem_purge_namespace : String → Memory → Option Memory
mem_purge_namespace name m =
    let t = table_of m.namespaces in
    elim (lookup t name) [ none ↦ some m | some ns ↦ purged name t (namespace_purge ns m.live) ]

-- The loop of `cleanup`.
unfoldable pub purge_all : Table Namespace → List Block → Option (List Block)
purge_all [] live = some live
purge_all ((name, ns) ∷ t) live = elim (namespace_purge ns live) [
  | none ↦ none
  | some (ns', live') ↦ purge_all t live'
]

-- `cleanup`, at the exit: the blocks that are still in use after it.
unfoldable pub cleanup : Memory → Option (List Block)
cleanup m = elim m.namespaces [ none ↦ some m.live | some t ↦ purge_all t m.live ]

-- `print_memory_statistics`: the summary.
abbrev pub add_statistic : Statistic → Statistic → Statistic
add_statistic total s = record {
  bytes_allocated = (total.bytes_allocated + s.bytes_allocated) % size_mod;
  allocation_count = (total.allocation_count + s.allocation_count) % size_mod;
  reallocation_count = (total.reallocation_count + s.reallocation_count) % size_mod;
  manual_free_count = (total.manual_free_count + s.manual_free_count) % size_mod;
  faulty_reallocations = (total.faulty_reallocations + s.faulty_reallocations) % size_mod;
  faulty_allocations = (total.faulty_allocations + s.faulty_allocations) % size_mod;
  purged_free_count = (total.purged_free_count + s.purged_free_count) % size_mod;
}

unfoldable pub total_statistic : Statistic → Table Namespace → Statistic
total_statistic total [] = total
total_statistic total ((name, ns) ∷ t) = total_statistic (add_statistic total ns.statistic) t

abbrev pub not_null : Option (ℕ × Memory) → Option (ℕ × Memory)
not_null none = none
not_null (some (p, m)) = if p == 0 then none else some (p, m)

module _ (a : Allocator) where
  unfoldable pub mem_alloc : String → ℕ → Memory → Option (ℕ × Memory)
  mem_alloc name size m = in_namespace name (namespace_malloc a size) m

  unfoldable pub mem_realloc : String → ℕ → ℕ → Memory → Option (ℕ × Memory)
  mem_realloc name p size m = in_namespace name (namespace_realloc a p size) m

  unfoldable pub mem_new_g_array : String → ℕ → Memory → Option (ℕ × Memory)
  mem_new_g_array name size m = in_namespace name (namespace_new_g_array a size) m

  unfoldable pub mem_new_g_hash_table : String → Memory → Option (ℕ × Memory)
  mem_new_g_hash_table name m = in_namespace name (namespace_new_g_hash_table a) m

  -- `mem_clone`, which copies to the new block without a test for `NULL`. `mem_strdup` is
  -- `mem_clone` of one byte more than the text has.
  unfoldable pub mem_clone : String → ℕ → Memory → Option (ℕ × Memory)
  mem_clone name size m = not_null (mem_alloc name size m)

  unfoldable pub mem_strdup : String → ℕ → Memory → Option (ℕ × Memory)
  mem_strdup name strlen m = mem_clone name (strlen + 1) m
