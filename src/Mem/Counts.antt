-- ===== src/Mem/Counts.antt =====
-- How often a block stands in the lists that the routines of the cache make.
use gemstone.Prelude.{
  Bool-cases, inl, inr, ℕ, ◌+◌, ◌≡◌, refl, true, false, Option, none, some, List, [], ◌∷◌, ◌++◌,
  ◌==◌, if◌then◌else◌, arith,
}
use gemstone.Mem.Blocks.{Block, same, count, remove}
use gemstone.Mem.Namespace.{take_block, move_block}

-- One block, counted.
abbrev pub one_of : Block → Block → ℕ
one_of b c = if same b c then 1 else 0

pub count-append : (b : Block) (xs ys : List Block) → count b (xs ++ ys) ≡ count b xs + count b ys
unfolding count
count-append b [] ys = omega arith
count-append b (x ∷ xs) ys = omega (arith, count-append b xs ys)

pub count-last :
    (b : Block) (xs : List Block) (c : Block) → count b (xs ++ c ∷ []) ≡ count b xs + one_of b c
unfolding count
count-last b xs c = omega (arith, count-append b xs (c ∷ []))

one_of-same : (b c d : Block) → same b d ≡ true → one_of c d ≡ one_of c b
one_of-same b c d e = ground (arith, e)

eq_of_test : (a b : ℕ) → a == b ≡ true → a ≡ b
eq_of_test a b h = ground arith

-- What `remove` gives, counted.
abbrev pub Removes : Block → List Block → Option (List Block) → Type 0
Removes b live none = count b live ≡ 0
Removes b live (some live') = (c : Block) → count c live ≡ one_of c b + count c live'

pub remove-Removes : (b : Block) (live : List Block) → Removes b live (remove b live)
unfolding remove count
remove-Removes b [] = refl
remove-Removes b (d ∷ ds) = elim (Bool-cases (same b d)) [
  | inl s ↦ rw s (λ c. omega (arith, one_of-same b c d s))
  | inr n ↦ rw n (go n (remove b ds) (remove-Removes b ds))
]
  where
    go :
        same b d ≡ false
        → (o : Option (List Block)) → Removes b ds o
        → Removes b (d ∷ ds) (elim o [ none ↦ none | some cs' ↦ some (d ∷ cs') ])
    go n none h = rw n (omega (arith, h))
    go n (some cs') h = λ c. omega (arith, h c)

-- What `take_block` finds, counted, and what `move_block` makes of the same list.
abbrev pub Takes : ℕ → List Block → Option (Block × List Block) → Type 0
Takes p bs none = Unit
Takes p bs (some (c, rest)) =
    ((b : Block) → count b bs ≡ one_of b c + count b rest)
    × ((q : ℕ) (b : Block)
        → count b (move_block p q bs) ≡ one_of b (record c { block_ptr = q }) + count b rest)
    × (c.block_ptr ≡ p)

pub take_block-Takes : (p : ℕ) (bs : List Block) → Takes p bs (take_block p bs)
unfolding take_block move_block count
take_block-Takes p [] = tt
take_block-Takes p (d ∷ ds) = elim (Bool-cases (d.block_ptr == p)) [
  | inl s ↦ rw s (λ b. refl, λ q b. rw s refl, eq_of_test d.block_ptr p s)
  | inr n ↦ rw n (go n (take_block p ds) (take_block-Takes p ds))
]
  where
    go :
        d.block_ptr == p ≡ false
        → (o : Option (Block × List Block)) → Takes p ds o
        → Takes p (d ∷ ds) (elim o [ none ↦ none | some (c, rest) ↦ some (c, d ∷ rest) ])
    go n none h = tt
    go n (some (c, rest)) h = (λ b. omega (arith, h.0 b), λ q b. rw n (omega (arith, h.1 q b)), h.2)
