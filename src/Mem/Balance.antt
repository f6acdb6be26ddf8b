-- ===== src/Mem/Balance.antt =====
-- The routines of a namespace keep the balance between the blocks that it lists and those in use.
use gemstone.Prelude.{
  ◌⊎◌, ◌%◌, ℕ, ◌+◌, ◌<◌, ◌≤◌, ◌≡◌, ◌≢◌, refl, ap, true, false, Option, none, some, List, [], ◌∷◌,
  ◌==◌, if◌then◌else◌, arith, Bool-cases, inl, inr,
}
use gemstone.Mem.Blocks.{
  pure, ◌>>◌, Block, generic_block, block_kind_code, count, Allocator, remove, release, acquire,
}
use gemstone.Mem.Namespace.{
  count_realloc, count_faulty, size_mod, count_free, Statistic, Namespace, take_block, move_block,
  free_taken, namespace_free, purge_blocks, namespace_malloc, reallocate, realloc_taken,
  namespace_realloc, namespace_new_g_array, namespace_new_g_hash_table,
}
use gemstone.Mem.Counts.{one_of, count-last, Removes, remove-Removes, Takes, take_block-Takes}

-- Every block of the list is in use, as often as it is listed.
abbrev pub Covers : List Block → List Block → Type 0
Covers live bs = (b : Block) → count b bs ≤ count b live

-- The routine runs, and what it takes from the namespace is no longer in use, what it adds is.
abbrev pub Balanced :
    {A : Type 0} → Namespace → List Block → Option ((Namespace × A) × List Block) → Type 0
Balanced ns live none = ⊥
Balanced ns live (some ((ns', x), live')) =
    (b : Block) → count b live' + count b ns.blocks ≡ count b live + count b ns'.blocks

-- A block was in use, and is no longer.
abbrev Released : Block → List Block → Option (Unit {0} × List Block) → Type 0
Released b live none = ⊥
Released b live (some (u, live')) = (c : Block) → count c live ≡ one_of c b + count c live'

pub one_of_self : (b : Block) → one_of b b ≡ 1
one_of_self b = ground arith

release-Released :
    (b : Block) (live : List Block) → 0 < count b live → Released b live (release b live)
unfolding release
release-Released b live h = go (remove b live) (remove-Removes b live)
  where
    go :
        (o : Option (List Block))
        → Removes b live o
        → Released b live (elim o [ none ↦ none | some live' ↦ some (tt, live') ])
    go none r = omega (arith, h, r)
    go (some live') r = r

pub test_of_ne : (p n : ℕ) → p ≢ n → p == n ≡ false
test_of_ne p n h = ground (arith, h)

module _ (p : ℕ) (ns : Namespace) (live : List Block) (covers : Covers live ns.blocks) where
  free_taken-Balanced :
      (o : Option (Block × List Block))
      → p ≢ 0
      → Takes p ns.blocks o
      → Balanced ns live (free_taken p ns o live)
  unfolding free_taken
  free_taken-Balanced none n t = λ b. refl
  free_taken-Balanced (some (c, rest)) n t = rw (test_of_ne p 0 n) (
      go (release c live) (release-Released c live (omega (arith, covers c, t.0 c, one_of_self c))))
    where
      go :
          (r : Option (Unit {0} × List Block))
          → Released c live r
          → Balanced ns live (elim r [
            | none ↦ none
            | some (u, live') ↦
                some ((record { statistic = count_free ns.statistic; blocks = rest }, true), live')
          ])
      go none h = h
      go (some (u, live')) h = λ b. omega (arith, h b, t.0 b)

  pub namespace_free-Balanced : p ≢ 0 → Balanced ns live (namespace_free p ns live)
  unfolding namespace_free
  namespace_free-Balanced n =
      free_taken-Balanced (take_block p ns.blocks) n (take_block-Takes p ns.blocks)

-- What `namespace_purge` leaves in use.
abbrev pub Purged : {A : Type 0} → List Block → List Block → Option (A × List Block) → Type 0
Purged bs live none = ⊥
Purged bs live (some (x, live')) = (c : Block) → count c live ≡ count c bs + count c live'

pub purge_blocks-Purged :
    (bs : List Block) (s : Statistic) (live : List Block)
    → Covers live bs
    → Purged bs live (purge_blocks bs s live)
unfolding purge_blocks count
purge_blocks-Purged [] s live h = λ c. omega arith
purge_blocks-Purged (b ∷ bs) s live h =
    go (release b live) (release-Released b live (omega (arith, h b, one_of_self b)))
      (purge_blocks-Purged bs)
  where
    go :
        (r : Option (Unit {0} × List Block))
        → Released b live r
        → ((s : Statistic) (live : List Block)
            → Covers live bs
            → Purged bs live (purge_blocks bs s live))
        → Purged (b ∷ bs) live (elim r [
          | none ↦ none
          | some (u, live') ↦
              purge_blocks bs
                (record s { purged_free_count = (s.purged_free_count + 1) % size_mod })
                live'
        ])
    go none k rec = k
    go (some (u, live')) k rec =
        after (purge_blocks bs _ live') (rec _ live' (λ c. omega (arith, h c, k c)))
      where
        after : (o : Option (Statistic × List Block)) → Purged bs live' o → Purged (b ∷ bs) live o
        after none e = e
        after (some (x, live'')) e = λ c. omega (arith, k c, e c)

module _ (a : Allocator) (ns : Namespace) (live : List Block) where
  pub namespace_malloc-Balanced :
      (size : ℕ) → size ≢ 0 → Balanced ns live (namespace_malloc a size ns live)
  unfolding namespace_malloc count
  namespace_malloc-Balanced size n = elim (Bool-cases (a.malloc live size == 0)) [
    | inl e ↦ rw (test_of_ne size 0 n) (rw e (λ b. refl))
    | inr e ↦ rw (test_of_ne size 0 n) (rw e (λ b. omega (arith, count-last b ns.blocks _)))
  ]

  pub namespace_new_g_array-Balanced :
      (size : ℕ) → Balanced ns live (namespace_new_g_array a size ns live)
  unfolding namespace_new_g_array count
  namespace_new_g_array-Balanced size = λ b. omega (arith, count-last b ns.blocks _)

  pub namespace_new_g_hash_table-Balanced : Balanced ns live (namespace_new_g_hash_table a ns live)
  unfolding namespace_new_g_hash_table count
  namespace_new_g_hash_table-Balanced = λ b. omega (arith, count-last b ns.blocks _)

-- The block that `namespace_realloc` finds came from `malloc`.
abbrev pub IsGeneric : Option (Block × List Block) → Type 0
IsGeneric none = Unit
IsGeneric (some (c, rest)) = c.kind ≡ generic_block

-- What `reallocate` does to the blocks in use: nothing, or one is at another address.
abbrev Moved : Block → List Block → Option (ℕ × List Block) → Type 0
Moved c live none = ⊥
Moved c live (some (q, live')) =
    (q == 0 ≡ true) × ((b : Block) → count b live' ≡ count b live)
    ⊎ (q == 0 ≡ false)
      × ((b : Block)
          → count b live' + one_of b c ≡ count b live + one_of b (record c { block_ptr = q }))

reallocate-Moved :
    (a : Allocator) (c : Block) (size : ℕ) (live : List Block)
    → size ≢ 0
    → c.kind ≡ generic_block
    → 0 < count c live
    → Moved c live (reallocate a c size live)
unfolding reallocate acquire count
reallocate-Moved a c size live n k h = rw (test_of_ne size 0 n) (
    rw (ap block_kind_code k) (elim (Bool-cases (a.realloc live c.block_ptr size == 0)) [
      | inl e ↦ rw e (inl (refl, λ b. refl))
      | inr e ↦ rw e (go e (release c live) (release-Released c live h))
    ]))
  where
    go :
        a.realloc live c.block_ptr size == 0 ≡ false
        → (r : Option (Unit {0} × List Block)) → Released c live r
        → Moved c live (
            ((λ (l : List Block). r)
                >> (acquire (record c { block_ptr = a.realloc live c.block_ptr size })
                    >> pure (a.realloc live c.block_ptr size)))
              live)
    go e none r = r
    go e (some (u, live')) r = rw (e, Moved) (inr (e, λ b. omega (arith, r b)))

module _ (a : Allocator) (p size : ℕ) (ns : Namespace) (live : List Block)
    (covers : Covers live ns.blocks) where
  realloc_taken-Balanced :
      (o : Option (Block × List Block))
      → size ≢ 0
      → p ≢ 0
      → IsGeneric o
      → Takes p ns.blocks o
      → Balanced ns live (realloc_taken a p size ns o live)
  unfolding realloc_taken
  realloc_taken-Balanced none n h k t = λ b. refl
  realloc_taken-Balanced (some (c, rest)) n h k t =
      go (reallocate a c size live)
        (reallocate-Moved a c size live n k (omega (arith, covers c, t.0 c, one_of_self c)))
    where
      go :
          (r : Option (ℕ × List Block))
          → Moved c live r
          → Balanced ns live (elim r [
            | none ↦ none
            | some (q, live') ↦ some (
              if q == 0 then (record ns { statistic = count_faulty a ns.statistic }, 0) else (
                record {
                  statistic = count_realloc a size ns.statistic;
                  blocks = move_block p q ns.blocks;
                },
                q,
              ),
              live',
            )
          ])
      go none h = h
      go (some (q, live')) (inl (e, h)) = rw e (λ b. omega (arith, h b))
      go (some (q, live')) (inr (e, h)) = rw e (λ b. omega (arith, h b, t.0 b, t.1 q b))

  pub namespace_realloc-Balanced :
      size ≢ 0
      → p ≢ 0
      → IsGeneric (take_block p ns.blocks)
      → Balanced ns live (namespace_realloc a p size ns live)
  unfolding namespace_realloc
  namespace_realloc-Balanced n h k =
      realloc_taken-Balanced (take_block p ns.blocks) n h k (take_block-Takes p ns.blocks)
