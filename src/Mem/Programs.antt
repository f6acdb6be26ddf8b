-- ===== src/Mem/Programs.antt =====
-- Programs of calls to src/mem/cache.h, from the start to `cleanup`.
use mathlib.Core.Path.{subst}
use gemstone.Prelude.{◌≡◌, refl, some, List, []}
use gemstone.Mem.Blocks.{count, Allocator}
use gemstone.Mem.Cache.{Memory, unused, cleanup}
use gemstone.Mem.Tracked.{count_all, IsTracked, KeepsTracked}
use gemstone.Mem.Calls.{Call, Runs, done, next}
use gemstone.Mem.Leaks.{cleanup-tracked, run_call-Tracked}

pub unused-IsTracked : IsTracked unused
unfolding count count_all
unused-IsTracked = λ b. refl

module _ (a : Allocator) where
  -- A program of allowed calls leaves memory in which every block in use is in exactly one
  -- namespace, if it starts with such memory.
  pub Runs-IsTracked :
      {cs : List Call} {m m' : Memory} → Runs a cs m m' → IsTracked m → IsTracked m'
  Runs-IsTracked done h = h
  Runs-IsTracked (next {c} {cs} {m} allowed e r) h =
      Runs-IsTracked r (subst KeepsTracked e (run_call-Tracked a c m h allowed))

  -- After a program of allowed calls `cleanup` runs without freeing a block that is not in use, and no block
  -- is in use any more.
  pub Runs-cleanup : {cs : List Call} {m : Memory} → Runs a cs unused m → cleanup m ≡ some []
  Runs-cleanup {m = m} r = cleanup-tracked m (Runs-IsTracked r unused-IsTracked)
