-- ===== src/Gmp/Examples.antt =====
-- Two allocations of the GMP library in a small nursery.
use certirocq.Prelude.{◌+◌, ◌≡◌, refl, none, [], arith}
use certirocq.Values.{Memory}
use certirocq.Gc.Types.{ok}
use certirocq.Gc.Alloc.{World}
use certirocq.Gmp.Allocate.{allocate_function}
use certirocq.Gmp.Allocate.Laws.{IsCleared, allocate_function-IsCleared}

abbrev world : World
world = (
  record { alloc = 1000; limit = 2000; heap = none; args = λ _. 0; fp = []; nalloc = 0; odata = 0 },
  λ _. 0,
)

allocate_function-IsCleared_example :
    (m m' : Memory) × (allocate_function (λ _. 0) 16 world ≡ ok (1000 + 8, (world.0, m)))
    × IsCleared (λ _. 0) 1000 16 m
    × (allocate_function (λ _. 0) 20 (world.0, m) ≡ ok (1000 + 8, (world.0, m')))
    × IsCleared m 1000 20 m'
allocate_function-IsCleared_example =
    allocate_function-IsCleared (λ _. 0) 16 20 world (omega arith) (omega arith) refl refl
