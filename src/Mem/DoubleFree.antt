-- ===== src/Mem/DoubleFree.antt =====
-- What `namespace_free` of src/mem/cache.c does when it is called twice.
use gemstone.Prelude.{
  Bool-cases, inl, inr, ℕ, ◌+◌, ◌≤◌, ◌≡◌, ◌≢◌, refl, true, false, Bool, Option, none, some, List,
  [], ◌∷◌, ◌==◌, if◌then◌else◌, arith,
}
use gemstone.Mem.Blocks.{Block, release}
use gemstone.Mem.Balance.{Covers, Balanced, namespace_free-Balanced, test_of_ne}
use gemstone.Mem.Namespace.{Namespace, count_free, take_block, free_taken, namespace_free}

-- How many blocks of a list are at an address.
unfoldable pub blocks_at : ℕ → List Block → ℕ
blocks_at p [] = 0
blocks_at p (b ∷ bs) = (if b.block_ptr == p then 1 else 0) + blocks_at p bs

-- A block found is one fewer at the address; none found, there is none.
abbrev Found : ℕ → List Block → Option (Block × List Block) → Type 0
Found p bs none = blocks_at p bs ≡ 0
Found p bs (some (b, rest)) = blocks_at p bs ≡ 1 + blocks_at p rest

take_block-Found : (p : ℕ) (bs : List Block) → Found p bs (take_block p bs)
unfolding take_block blocks_at
take_block-Found p [] = refl
take_block-Found p (c ∷ bs) = elim (Bool-cases (c.block_ptr == p)) [
  | inl e ↦ rw e (rw e refl)
  | inr e ↦ rw e (go e (take_block p bs) (take_block-Found p bs))
]
  where
    go :
        c.block_ptr == p ≡ false
        → (o : Option (Block × List Block)) → Found p bs o
        → Found p (c ∷ bs) (elim o [ none ↦ none | some (b, rest) ↦ some (b, c ∷ rest) ])
    go e none h = rw e (omega (arith, h))
    go e (some (b, rest)) h = rw e (omega (arith, h))

namespace_free-missing :
    (p : ℕ) (ns : Namespace) (live : List Block)
    → blocks_at p ns.blocks ≡ 0
    → namespace_free p ns live ≡ some ((ns, false), live)
unfolding namespace_free free_taken
namespace_free-missing p ns live h = go (take_block p ns.blocks) (take_block-Found p ns.blocks)
  where
    go :
        (o : Option (Block × List Block))
        → Found p ns.blocks o
        → free_taken p ns o live ≡ some ((ns, false), live)
    go none k = refl
    go (some (b, rest)) k = absurd (omega (arith, h, k))

-- The first call runs, and the second does nothing and answers `false`.
abbrev pub FreesOnce : ℕ → Option ((Namespace × Bool) × List Block) → Type 0
FreesOnce p none = ⊥
FreesOnce p (some ((ns, x), live)) = namespace_free p ns live ≡ some ((ns, false), live)

free_taken-FreesOnce :
    (p : ℕ) (ns : Namespace) (live : List Block)
    → blocks_at p ns.blocks ≤ 1
    → p ≢ 0
    → (o : Option (Block × List Block)) → Found p ns.blocks o
    → Balanced ns live (free_taken p ns o live)
    → FreesOnce p (free_taken p ns o live)
unfolding free_taken
free_taken-FreesOnce p ns live h n none f = λ k. namespace_free-missing p ns live f
free_taken-FreesOnce p ns live h n (some (b, rest)) f = rw (test_of_ne p 0 n) (go (release b live))
  where
    go :
        (r : Option (Unit {0} × List Block))
        → Balanced ns live (elim r [
          | none ↦ none
          | some (u, live') ↦
              some ((record { statistic = count_free ns.statistic; blocks = rest }, true), live')
        ])
        → FreesOnce p (elim r [
          | none ↦ none
          | some (u, live') ↦
              some ((record { statistic = count_free ns.statistic; blocks = rest }, true), live')
        ])
    go none k = k
    go (some (u, live')) k = namespace_free-missing p _ live' (omega (arith, h, f))

-- A namespace frees an address that it lists once at most once at most, if its blocks are in use:
-- `namespace_free` runs, and a second one of that address finds nothing, changes nothing and
-- answers `false`.
pub namespace_free-twice :
    (p : ℕ) (ns : Namespace) (live : List Block)
    → Covers live ns.blocks
    → p ≢ 0
    → blocks_at p ns.blocks ≤ 1
    → FreesOnce p (namespace_free p ns live)
unfolding namespace_free
namespace_free-twice p ns live covers n h =
    free_taken-FreesOnce p ns live h n (take_block p ns.blocks) (take_block-Found p ns.blocks)
      (namespace_free-Balanced p ns live covers n)
