-- ===== src/Mem/Leaks.antt =====
-- What the calls to src/mem/cache.h and `cleanup` do to the blocks in use.
use gemstone.Prelude.{
  ℕ, ◌+◌, ◌≤◌, ◌≡◌, ◌≢◌, refl, ap, String, Option, none, some, List, [], ◌∷◌, Table, lookup, insert,
  arith,
}
use gemstone.Mem.Blocks.{Block, count, Allocator}
use gemstone.Mem.Namespace.{Statistic, Namespace, purge_blocks, namespace_purge, namespace_malloc}
use gemstone.Mem.Cache.{
  Memory, table_of, namespace_of, mem_purge_namespace, purged, purge_all, cleanup, mem_alloc,
  mem_clone, mem_strdup, in_namespace, mem_new_g_array, mem_new_g_hash_table, mem_realloc,
  mem_free_from,
}
use gemstone.Mem.Balance.{
  test_of_ne, one_of_self, Covers, Purged, purge_blocks-Purged, namespace_free-Balanced,
  namespace_malloc-Balanced, namespace_realloc-Balanced, namespace_new_g_array-Balanced,
  namespace_new_g_hash_table-Balanced,
}
use gemstone.Mem.Tracked.{
  count_all, count_all-insert, count-lookup, IsTracked, RunsTracked, KeepsTracked,
  in_namespace-RunsTracked, mem_free-KeepsTracked,
}
use gemstone.Mem.Calls.{
  alloc, clone, strdup, g_array, g_hash_table, purge_namespace, realloc, free_from, free, Call,
  left, run_call, IsAllowed,
}

-- What `namespace_purge` leaves: a namespace without a block.
abbrev Emptied : List Block → List Block → Option (Namespace × List Block) → Type 0
Emptied bs live none = ⊥
Emptied bs live (some (ns, live')) =
    (ns.blocks ≡ []) × ((c : Block) → count c live ≡ count c bs + count c live')

namespace_purge-Emptied :
    (ns : Namespace) (live : List Block)
    → Covers live ns.blocks
    → Emptied ns.blocks live (namespace_purge ns live)
unfolding namespace_purge
namespace_purge-Emptied ns live h =
    go (purge_blocks ns.blocks ns.statistic live)
      (purge_blocks-Purged ns.blocks ns.statistic live h)
  where
    go :
        (r : Option (Statistic × List Block))
        → Purged ns.blocks live r
        → Emptied ns.blocks live (elim r [
          | none ↦ none
          | some (s, live') ↦ some (record { statistic = s; blocks = [] }, live')
        ])
    go none k = k
    go (some (s, live')) k = (refl, k)

mem_purge_namespace-KeepsTracked :
    (name : String) (m : Memory) → IsTracked m → KeepsTracked (mem_purge_namespace name m)
unfolding mem_purge_namespace purged count
mem_purge_namespace-KeepsTracked name m tracked =
    go (lookup (table_of m.namespaces) name) (λ b. count-lookup b (table_of m.namespaces) name)
      (λ b ns. count_all-insert b (table_of m.namespaces) name ns)
  where
    go :
        (o : Option Namespace)
        → ((b : Block) → count b (namespace_of o).blocks ≤ count_all b (table_of m.namespaces))
        → ((b : Block) (ns : Namespace)
            → count_all b (insert (table_of m.namespaces) name ns) + count b (namespace_of o).blocks
              ≡ count_all b (table_of m.namespaces) + count b ns.blocks)
        → KeepsTracked (elim o [
          | none ↦ some m
          | some ns ↦ purged name (table_of m.namespaces) (namespace_purge ns m.live)
        ])
    go none h k = tracked
    go (some ns) h k =
        after (namespace_purge ns m.live)
          (namespace_purge-Emptied ns m.live (λ b. omega (arith, tracked b, h b)))
      where
        after :
            (r : Option (Namespace × List Block))
            → Emptied ns.blocks m.live r
            → KeepsTracked (purged name (table_of m.namespaces) r)
        after none e = e
        after (some (ns', live)) (e, f) =
            λ b. omega (arith, f b, tracked b, k b ns', ap (count b) e)

left-KeepsTracked : {A : Type 0} (o : Option (A × Memory)) → RunsTracked o → KeepsTracked (left o)
left-KeepsTracked none h = h
left-KeepsTracked (some (x, m)) h = h

-- What is left of the blocks in use after the namespaces of a table are purged.
abbrev LeftOver : Table Namespace → List Block → Option (List Block) → Type 0
LeftOver t live none = ⊥
LeftOver t live (some live') = (b : Block) → count b live ≡ count_all b t + count b live'

purge_all-LeftOver :
    (t : Table Namespace) (live : List Block)
    → ((b : Block) → count_all b t ≤ count b live)
    → LeftOver t live (purge_all t live)
unfolding purge_all count_all
purge_all-LeftOver [] live h = λ b. omega arith
purge_all-LeftOver ((name, ns) ∷ t) live h =
    go (namespace_purge ns live) (namespace_purge-Emptied ns live (λ b. omega (arith, h b)))
      (purge_all-LeftOver t)
  where
    go :
        (r : Option (Namespace × List Block))
        → Emptied ns.blocks live r
        → ((l : List Block)
            → ((b : Block) → count_all b t ≤ count b l)
            → LeftOver t l (purge_all t l))
        → LeftOver
            ((name, ns) ∷ t)
            live
            (elim r [ none ↦ none | some (ns', live') ↦ purge_all t live' ])
    go none k rec = k
    go (some (ns', live')) (e, k) rec =
        after (purge_all t live') (rec live' (λ b. omega (arith, k b, h b)))
      where
        after : (o : Option (List Block)) → LeftOver t live' o → LeftOver ((name, ns) ∷ t) live o
        after none f = f
        after (some live'') f = λ b. omega (arith, k b, f b)

no_block : (bs : List Block) → ((b : Block) → count b bs ≡ 0) → bs ≡ []
unfolding count
no_block [] h = refl
no_block (b ∷ bs) h = absurd (omega (arith, h b, one_of_self b))

pub cleanup-tracked : (m : Memory) → IsTracked m → cleanup m ≡ some []
unfolding cleanup count_all
cleanup-tracked m tracked = go m.namespaces tracked
  where
    after :
        (t : Table Namespace)
        → ((b : Block) → count b m.live ≡ count_all b t)
        → (r : Option (List Block)) → LeftOver t m.live r
        → r ≡ some []
    after t k none e = absurd e
    after t k (some live) e = ap some (no_block live (λ b. omega (arith, k b, e b)))

    go :
        (o : Option (Table Namespace))
        → ((b : Block) → count b m.live ≡ count_all b (table_of o))
        → elim o [ none ↦ some m.live | some t ↦ purge_all t m.live ] ≡ some []
    go none k = ap some (no_block m.live k)
    go (some t) k =
        after t k (purge_all t m.live) (purge_all-LeftOver t m.live (λ b. omega (arith, k b)))

strdup_ne : (n : ℕ) → n + 1 ≢ 0
strdup_ne n h = omega (arith, h)

module _ (a : Allocator) where
  alloc-RunsTracked :
      (name : String) (size : ℕ) (m : Memory)
      → IsTracked m
      → size ≢ 0
      → RunsTracked (mem_alloc a name size m)
  unfolding mem_alloc
  alloc-RunsTracked name size m tracked n =
      in_namespace-RunsTracked name (namespace_malloc a size) m tracked
        (λ h. namespace_malloc-Balanced a _ m.live size n)

  mem_clone-mem_alloc :
      (name : String) (size : ℕ) (m : Memory)
      → size ≢ 0
      → a.malloc m.live size ≢ 0
      → mem_clone a name size m ≡ mem_alloc a name size m
  unfolding mem_clone mem_alloc in_namespace namespace_malloc
  mem_clone-mem_alloc name size m n k =
      rw (test_of_ne size 0 n) (
        rw (test_of_ne (a.malloc m.live size) 0 k)
          (rw (test_of_ne (a.malloc m.live size) 0 k) refl))

  mem_clone-RunsTracked :
      (name : String) (size : ℕ) (m : Memory)
      → IsTracked m
      → size ≢ 0
      → a.malloc m.live size ≢ 0
      → RunsTracked (mem_clone a name size m)
  mem_clone-RunsTracked name size m tracked n k =
      rw (mem_clone-mem_alloc name size m n k) (alloc-RunsTracked name size m tracked n)

  -- From memory in which every block in use is in exactly one namespace, as at the start, an allowed
  -- call runs: it frees and reallocates only blocks in use, by the function that their kind asks for. And it leaves such memory.
  pub run_call-Tracked :
      (c : Call) (m : Memory) → IsTracked m → IsAllowed a c m → KeepsTracked (run_call a c m)
  unfolding run_call mem_strdup mem_new_g_array mem_new_g_hash_table mem_realloc mem_free_from
  run_call-Tracked (alloc name size) m h k = left-KeepsTracked _ (alloc-RunsTracked name size m h k)
  run_call-Tracked (clone name size) m h (k, l) =
      left-KeepsTracked _ (mem_clone-RunsTracked name size m h k l)
  run_call-Tracked (strdup name n) m h k =
      left-KeepsTracked _ (mem_clone-RunsTracked name (n + 1) m h (strdup_ne n) k)
  run_call-Tracked (g_array name size) m h k =
      left-KeepsTracked _
        (in_namespace-RunsTracked name _ m h (λ l. namespace_new_g_array-Balanced a _ m.live size))
  run_call-Tracked (g_hash_table name) m h k =
      left-KeepsTracked _
        (in_namespace-RunsTracked name _ m h (λ l. namespace_new_g_hash_table-Balanced a _ m.live))
  run_call-Tracked (purge_namespace name) m h k = mem_purge_namespace-KeepsTracked name m h
  run_call-Tracked (realloc name p size) m h (n, k, g) = left-KeepsTracked _ (
      in_namespace-RunsTracked name _ m h
        (λ l. namespace_realloc-Balanced a p size _ m.live l n k g))
  run_call-Tracked (free_from name p) m h k =
      left-KeepsTracked _
        (in_namespace-RunsTracked name _ m h (λ l. namespace_free-Balanced p _ m.live l k))
  run_call-Tracked (free p) m h (n, k) = mem_free-KeepsTracked p m h n k
