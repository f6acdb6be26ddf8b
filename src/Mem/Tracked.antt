-- ===== src/Mem/Tracked.antt =====
-- The table of namespaces and the blocks in use: every block in use is in exactly one namespace.
use gemstone.Prelude.{
  ℕ, ◌+◌, ◌≤◌, ◌≡◌, ◌≢◌, refl, String, Bool, true, false, Bool-cases, inl, inr, Option, none, some,
  List, [], ◌∷◌, str_eq, Table, lookup, insert, arith,
}
use gemstone.Mem.Blocks.{Block, count, M}
use gemstone.Mem.Namespace.{Namespace, namespace_free}
use gemstone.Mem.Cache.{
  mem_free, with_table, Memory, table_of, namespace_of, stored, in_namespace, free_in,
}
use gemstone.Mem.Balance.{Covers, Balanced, namespace_free-Balanced}

-- How often a block is in the namespaces of a table.
unfoldable pub count_all : Block → Table Namespace → ℕ
count_all b [] = 0
count_all b ((name, ns) ∷ t) = count b ns.blocks + count_all b t

abbrev pub IsTracked : Memory → Type 0
IsTracked m = (b : Block) → count b m.live ≡ count_all b (table_of m.namespaces)

-- A routine ran, and what it left is tracked.
abbrev pub RunsTracked : {A : Type 0} → Option (A × Memory) → Type 0
RunsTracked none = ⊥
RunsTracked (some (x, m)) = IsTracked m

abbrev pub KeepsTracked : Option Memory → Type 0
KeepsTracked none = ⊥
KeepsTracked (some m) = IsTracked m

count-lookup-empty :
    (b : Block) (name : String) → count b (namespace_of (lookup [] name)).blocks ≡ 0
unfolding count lookup
count-lookup-empty b name = refl

pub count_all-insert :
    (b : Block) (t : Table Namespace) (name : String) (ns : Namespace)
    → count_all b (insert t name ns) + count b (namespace_of (lookup t name)).blocks
      ≡ count_all b t + count b ns.blocks
unfolding count_all insert lookup
count_all-insert b [] name ns = omega (arith, count-lookup-empty b name)
count_all-insert b ((j, v) ∷ t) name ns = elim (Bool-cases (str_eq j name)) [
  | inl e ↦ rw e (omega arith)
  | inr e ↦ rw e (omega (arith, count_all-insert b t name ns))
]

pub count-lookup :
    (b : Block) (t : Table Namespace) (name : String)
    → count b (namespace_of (lookup t name)).blocks ≤ count_all b t
unfolding count_all lookup
count-lookup b [] name = omega (arith, count-lookup-empty b name)
count-lookup b ((j, v) ∷ t) name = elim (Bool-cases (str_eq j name)) [
  | inl e ↦ rw e (omega arith)
  | inr e ↦ rw e (omega (arith, count-lookup b t name))
]

pub in_namespace-RunsTracked :
    {A : Type 0} (name : String) (f : Namespace → M (Namespace × A)) (m : Memory)
    → IsTracked m
    → (Covers m.live (namespace_of (lookup (table_of m.namespaces) name)).blocks
        → Balanced
            (namespace_of (lookup (table_of m.namespaces) name))
            m.live
            (f (namespace_of (lookup (table_of m.namespaces) name)) m.live))
    → RunsTracked (in_namespace name f m)
unfolding in_namespace
in_namespace-RunsTracked {A} name f m tracked balanced =
    go (f (namespace_of (lookup (table_of m.namespaces) name)) m.live)
      (balanced (λ b. omega (arith, tracked b, count-lookup b (table_of m.namespaces) name)))
  where
    go :
        (r : Option ((Namespace × A) × List Block))
        → Balanced (namespace_of (lookup (table_of m.namespaces) name)) m.live r
        → RunsTracked (stored name (table_of m.namespaces) r)
    go none h = h
    go (some ((ns', x), live)) h =
        λ b. omega (arith, h b, tracked b, count_all-insert b (table_of m.namespaces) name ns')

-- What `free_in` does to a table and the blocks in use.
abbrev TableBalanced : Table Namespace → List Block → Option (Table Namespace × List Block) → Type 0
TableBalanced t live none = ⊥
TableBalanced t live (some (t', live')) =
    (b : Block) → count b live' + count_all b t ≡ count b live + count_all b t'

free_in-TableBalanced :
    (p : ℕ) (t : Table Namespace) (live : List Block)
    → p ≢ 0
    → ((b : Block) → count_all b t ≤ count b live)
    → TableBalanced t live (free_in p t live)
unfolding free_in count_all
free_in-TableBalanced p [] live n h = λ b. refl
free_in-TableBalanced p ((name, ns) ∷ t) live n h =
    go (namespace_free p ns live) (namespace_free-Balanced p ns live (λ b. omega (arith, h b)) n)
      (λ live' k. free_in-TableBalanced p t live' n k)
  where
    go :
        (r : Option ((Namespace × Bool) × List Block))
        → Balanced ns live r
        → ((live' : List Block)
            → ((b : Block) → count_all b t ≤ count b live')
            → TableBalanced t live' (free_in p t live'))
        → TableBalanced ((name, ns) ∷ t) live (elim r [
          | none ↦ none
          | some ((ns', true), live') ↦ some ((name, ns') ∷ t, live')
          | some ((ns', false), live') ↦ elim (free_in p t live') [
            | none ↦ none
            | some (t', live'') ↦ some ((name, ns') ∷ t', live'')
          ]
        ])
    go none k rec = k
    go (some ((ns', true), live')) k rec = λ b. omega (arith, k b)
    go (some ((ns', false), live')) k rec =
        after (free_in p t live') (rec live' (λ b. omega (arith, k b, h b)))
      where
        after :
            (o : Option (Table Namespace × List Block))
            → TableBalanced t live' o
            → TableBalanced
                ((name, ns) ∷ t)
                live
                (elim o [ none ↦ none | some (t', live'') ↦ some ((name, ns') ∷ t', live'') ])
        after none e = e
        after (some (t', live'')) e = λ b. omega (arith, k b, e b)

pub mem_free-KeepsTracked :
    (p : ℕ) (m : Memory) → IsTracked m → p ≢ 0 → m.namespaces ≢ none → KeepsTracked (mem_free p m)
unfolding mem_free
mem_free-KeepsTracked p m tracked n h = go m.namespaces h tracked
  where
    after :
        (t : Table Namespace)
        → ((b : Block) → count b m.live ≡ count_all b t)
        → (r : Option (Table Namespace × List Block)) → TableBalanced t m.live r
        → KeepsTracked (with_table r)
    after t k none e = e
    after t k (some (t', live)) e = λ b. omega (arith, e b, k b)

    go :
        (o : Option (Table Namespace))
        → o ≢ none
        → ((b : Block) → count b m.live ≡ count_all b (table_of o))
        → KeepsTracked (elim o [ none ↦ none | some t ↦ with_table (free_in p t m.live) ])
    go none h k = absurd (h refl)
    go (some t) h k =
        after t k (free_in p t m.live)
          (free_in-TableBalanced p t m.live n (λ b. omega (arith, k b)))
