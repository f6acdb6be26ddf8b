-- ===== src/Mem/Accounts.antt =====
-- The statistics of a namespace of src/mem/cache.c against the blocks that it lists.
use gemstone.Prelude.{
  if◌then◌else◌, ap, Bool-cases, inl, inr, true, ◌==◌, ◌++◌, ℕ, ◌+◌, ◌%◌, ◌≡◌, refl, Option, none,
  some, List, [], ◌∷◌, arith,
}
use gemstone.Mem.Blocks.{release, Block, Allocator}
use gemstone.Mem.Namespace.{
  realloc_taken, reallocate, count_faulty, count_realloc, namespace_new_g_array,
  namespace_new_g_hash_table, append_block, count_free, size_mod, Statistic, Namespace, take_block,
  move_block, namespace_free, namespace_purge, purge_blocks, namespace_malloc, namespace_realloc,
  free_taken,
}

unfoldable pub number : List Block → ℕ
number [] = 0
number (b ∷ bs) = 1 + number bs

-- The blocks that were made are those that were freed, by hand or by a purge, and those listed.
abbrev pub IsCounted : Namespace → Type 0
IsCounted ns =
    ns.statistic.allocation_count
    ≡ (ns.statistic.manual_free_count + ns.statistic.purged_free_count + number ns.blocks)
      % size_mod

abbrev pub KeepsCounted : {A : Type 0} → Option ((Namespace × A) × List Block) → Type 0
KeepsCounted none = Unit
KeepsCounted (some ((ns, x), live)) = IsCounted ns

-- One block fewer.
abbrev Shorter : List Block → Option (Block × List Block) → Type 0
Shorter bs none = Unit
Shorter bs (some (b, rest)) = number bs ≡ 1 + number rest

number-take_block : (p : ℕ) (bs : List Block) → Shorter bs (take_block p bs)
unfolding take_block number
number-take_block p [] = tt
number-take_block p (c ∷ bs) = elim (Bool-cases (c.block_ptr == p)) [
  | inl e ↦ rw e refl
  | inr e ↦ rw e (go (take_block p bs) (number-take_block p bs))
]
  where
    go :
        (o : Option (Block × List Block))
        → Shorter bs o
        → Shorter (c ∷ bs) (elim o [ none ↦ none | some (b, rest) ↦ some (b, c ∷ rest) ])
    go none h = tt
    go (some (b, rest)) h = omega (arith, h)

number-move_block : (p q : ℕ) (bs : List Block) → number (move_block p q bs) ≡ number bs
unfolding move_block number
number-move_block p q [] = refl
number-move_block p q (b ∷ bs) = elim (Bool-cases (b.block_ptr == p)) [
  | inl e ↦ rw e refl
  | inr e ↦ rw e (ap (λ n. 1 + n) (number-move_block p q bs))
]

number-last : (bs : List Block) (b : Block) → number (bs ++ b ∷ []) ≡ number bs + 1
unfolding number
number-last [] b = refl
number-last (c ∷ bs) b = omega (arith, number-last bs b)

module _ (ns : Namespace) (live : List Block) (counted : IsCounted ns) where
  free_taken-KeepsCounted :
      (p : ℕ) (o : Option (Block × List Block))
      → Shorter ns.blocks o
      → KeepsCounted (free_taken p ns o live)
  unfolding free_taken
  free_taken-KeepsCounted p none h = counted
  free_taken-KeepsCounted p (some (b, rest)) h = elim (Bool-cases (p == 0)) [
    | inl e ↦ rw e tt
    | inr e ↦ rw e (go (release b live))
  ]
    where
      go :
          (r : Option (Unit {0} × List Block))
          → KeepsCounted (elim r [
            | none ↦ none
            | some (u, live') ↦
                some ((record { statistic = count_free ns.statistic; blocks = rest }, true), live')
          ])
      go none = tt
      go (some (u, live')) = omega (arith, counted, h)

  append_block-IsCounted : (b : Block) (size : ℕ) → IsCounted (append_block b size ns)
  append_block-IsCounted b size = omega (arith, counted, number-last ns.blocks b)

  namespace_malloc-KeepsCounted :
      (a : Allocator) (size : ℕ) → KeepsCounted (namespace_malloc a size ns live)
  unfolding namespace_malloc
  namespace_malloc-KeepsCounted a size = elim (Bool-cases (size == 0)) [
    | inl e ↦ rw e tt
    | inr e ↦ rw e (elim (Bool-cases (a.malloc live size == 0)) [
      | inl f ↦ rw f counted
      | inr f ↦ rw f (append_block-IsCounted _ size)
    ])
  ]

  realloc_taken-KeepsCounted :
      (a : Allocator) (p size : ℕ) (o : Option (Block × List Block))
      → KeepsCounted (realloc_taken a p size ns o live)
  unfolding realloc_taken
  realloc_taken-KeepsCounted a p size none = counted
  realloc_taken-KeepsCounted a p size (some (b, rest)) = go (reallocate a b size live)
    where
      go :
          (r : Option (ℕ × List Block))
          → KeepsCounted (elim r [
            | none ↦ none
            | some (q, live') ↦ some (
              if q == 0 then (record ns { statistic = count_faulty a ns.statistic }, 0) else (
                record {
                  statistic = count_realloc a size ns.statistic;
                  blocks = move_block p q ns.blocks;
                },
                q,
              ),
              live',
            )
          ])
      go none = tt
      go (some (q, live')) = elim (Bool-cases (q == 0)) [
        | inl e ↦ rw e counted
        | inr e ↦ rw e (omega (arith, counted, number-move_block p q ns.blocks))
      ]

-- What a purge has counted, with the blocks that were there.
abbrev PurgedCounted : List Block → Statistic → Option (Statistic × List Block) → Type 0
PurgedCounted bs s none = Unit
PurgedCounted bs s (some (s', live)) =
    (s'.allocation_count ≡ s.allocation_count)
    × (s'.manual_free_count ≡ s.manual_free_count)
    × (s'.purged_free_count % size_mod ≡ (s.purged_free_count + number bs) % size_mod)

purge_blocks-PurgedCounted :
    (bs : List Block) (s : Statistic) (live : List Block)
    → PurgedCounted bs s (purge_blocks bs s live)
unfolding purge_blocks number
purge_blocks-PurgedCounted [] s live = (refl, refl, omega arith)
purge_blocks-PurgedCounted (b ∷ bs) s live = go (release b live) (purge_blocks-PurgedCounted bs)
  where
    go :
        (r : Option (Unit {0} × List Block))
        → ((s : Statistic) (live : List Block) → PurgedCounted bs s (purge_blocks bs s live))
        → PurgedCounted (b ∷ bs) s (elim r [
          | none ↦ none
          | some (u, live') ↦
              purge_blocks bs
                (record s { purged_free_count = (s.purged_free_count + 1) % size_mod })
                live'
        ])
    go none rec = tt
    go (some (u, live')) rec = after (purge_blocks bs _ live') (rec _ live')
      where
        after :
            (o : Option (Statistic × List Block))
            → PurgedCounted bs
                (record s { purged_free_count = (s.purged_free_count + 1) % size_mod })
                o
            → PurgedCounted (b ∷ bs) s o
        after none h = h
        after (some (s', live'')) (h, k, l) = (h, k, omega (arith, l))

-- A purge keeps the accounts: `namespace_purge` has no value of its own.
abbrev pub KeepsCountedAlone : Option (Namespace × List Block) → Type 0
KeepsCountedAlone none = Unit
KeepsCountedAlone (some (ns, live)) = IsCounted ns

namespace_purge-IsCounted :
    (ns : Namespace) (live : List Block)
    → IsCounted ns
    → KeepsCountedAlone (namespace_purge ns live)
unfolding namespace_purge number
namespace_purge-IsCounted ns live counted =
    go (purge_blocks ns.blocks ns.statistic live)
      (purge_blocks-PurgedCounted ns.blocks ns.statistic live)
  where
    go :
        (r : Option (Statistic × List Block))
        → PurgedCounted ns.blocks ns.statistic r
        → KeepsCountedAlone (elim r [
          | none ↦ none
          | some (s, live') ↦ some (record { statistic = s; blocks = [] }, live')
        ])
    go none h = tt
    go (some (s, live')) (h, k, l) = omega (arith, counted, h, k, l)

-- With the allocations counted as those freed by hand, those purged and the blocks listed, modulo
-- 2^64, every routine of a namespace that runs to its end keeps them so.
pub routines-IsCounted :
    (a : Allocator) (ns : Namespace) (live : List Block) (p size : ℕ)
    → IsCounted ns
    → KeepsCounted (namespace_malloc a size ns live)
      × KeepsCounted (namespace_realloc a p size ns live)
      × KeepsCounted (namespace_new_g_array a size ns live)
      × KeepsCounted (namespace_new_g_hash_table a ns live)
      × KeepsCounted (namespace_free p ns live)
      × KeepsCountedAlone (namespace_purge ns live)
unfolding namespace_realloc namespace_free namespace_new_g_array namespace_new_g_hash_table
routines-IsCounted a ns live p size h = (
  namespace_malloc-KeepsCounted ns live h a size,
  realloc_taken-KeepsCounted ns live h a p size (take_block p ns.blocks),
  append_block-IsCounted ns live h _ 8,
  append_block-IsCounted ns live h _ 8,
  free_taken-KeepsCounted ns live h p (take_block p ns.blocks) (number-take_block p ns.blocks),
  namespace_purge-IsCounted ns live h,
)
