-- ===== src/Mem/Blocks.antt =====
-- The blocks of src/mem/cache.c, and the allocators below it: `malloc`, `realloc` and `free` of the C
-- library and the constructors of GLib. The model knows which blocks are in use; to free or to
-- reallocate one that is not, or by the wrong function, is undefined.
use gemstone.Prelude.{ℕ, ◌+◌, Bool, ◌&&◌, Option, none, some, List, [], ◌∷◌, ◌==◌, if◌then◌else◌}

-- `MemoryBlockType`.
pub data BlockKind : Type 0 where
  generic_block glib_array glib_hash_table : BlockKind

abbrev pub block_kind_code : BlockKind → ℕ
block_kind_code generic_block = 0
block_kind_code glib_array = 1
block_kind_code glib_hash_table = 2

-- `MemoryBlock`; address 0 is `NULL`.
pub record Block : Type 0 where
  pub block_ptr : ℕ
  pub kind : BlockKind

-- What the allocators answer, given the blocks in use. `malloc` and `realloc` may give `NULL`.
pub record Allocator : Type 0 where
  pub malloc : List Block → ℕ → ℕ
  pub realloc : List Block → ℕ → ℕ → ℕ
  pub g_array_new : List Block → ℕ → ℕ
  pub g_hash_table_new : List Block → ℕ

abbrev pub same : Block → Block → Bool
same b c = b.block_ptr == c.block_ptr && block_kind_code b.kind == block_kind_code c.kind

-- How often a block is in a list.
unfoldable pub count : Block → List Block → ℕ
count b [] = 0
count b (c ∷ cs) = (if same b c then 1 else 0) + count b cs

-- The list without the block, if it is there.
unfoldable pub remove : Block → List Block → Option (List Block)
remove b [] = none
remove b (c ∷ cs) =
    if same b c then some cs else elim (remove b cs) [ none ↦ none | some cs' ↦ some (c ∷ cs') ]

-- A routine over the blocks in use; `none` is a failed assertion or an undefined call.
abbrev pub M : Type 0 → Type 0
M A = List Block → Option (A × List Block)

abbrev pub pure : {A : Type 0} → A → M A
pure a live = some (a, live)

infixl 5 ◌>>=◌ ◌>>◌
abbrev pub ◌>>=◌ : {A B : Type 0} → M A → (A → M B) → M B
◌>>=◌ m k live = elim (m live) [ none ↦ none | some (a, live') ↦ k a live' ]

abbrev pub ◌>>◌ : {A B : Type 0} → M A → M B → M B
m >> k = m >>= λ _. k

abbrev pub abort : {A : Type 0} → M A
abort live = none

-- `free`, `g_array_free` or `g_hash_table_destroy` of a block.
unfoldable pub release : Block → M (Unit {0})
release b live = elim (remove b live) [ none ↦ none | some live' ↦ some (tt, live') ]

-- A new block in use; at address 0 there is none.
unfoldable pub acquire : Block → M (Unit {0})
acquire b live = if b.block_ptr == 0 then some (tt, live) else some (tt, b ∷ live)
