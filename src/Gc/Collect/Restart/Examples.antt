-- ===== src/Gc/Collect/Restart/Examples.antt =====
-- A collection on a fresh heap, which creates generation 1.
use certirocq.Prelude.{ℕ, zero, suc, ◌+◌, ◌*◌, ◌≡◌, refl, [], some, false, arith, ◌==◌}
use certirocq.Gc.Types.{Space, no_space, Heap, ThreadInfo, set_space, ok}
use certirocq.Gc.Collect.{close_nursery, garbage_collect}
use certirocq.Gc.Collect.Sizes.{IsSized}
use certirocq.Gc.Collect.Restart.{IsRestarted, garbage_collect-IsRestarted}

abbrev space : (start words : ℕ) → Space
space start words = record {
  start = start;
  next = start;
  limit = start + 8 * words;
  rem_limit = start + 8 * words;
}

abbrev heap : Heap
heap = set_space (λ _. no_space) 0 (space 1000 65536)

abbrev thread : ThreadInfo
thread = record {
  alloc = 1000;
  limit = 1000 + 8 * 65536;
  heap = some heap;
  args = λ _. 0;
  fp = [];
  nalloc = 3;
  odata = 0;
}

abbrev heap_after : Heap
heap_after =
    set_space
      (set_space (set_space (close_nursery thread heap) 1 (space 2000000 131072)) 0
        (space 1000 65536))
      1 (space 2000000 131072)

abbrev thread_after : ThreadInfo
thread_after = record thread { heap = some heap_after }

runs : garbage_collect (λ _. 2000000) thread (λ _. 0) ≡ ok (thread_after, λ _. 0)
unfolding garbage_collect
runs = refl

heap-IsSized : IsSized heap
heap-IsSized zero is = refl
heap-IsSized (suc i) is = let e : (suc i == 0) ≡ false = ground arith in absurd (is (rw e refl))

garbage_collect-IsRestarted_example : (h' : Heap) × IsRestarted thread heap thread_after h'
garbage_collect-IsRestarted_example =
    garbage_collect-IsRestarted (λ _. 2000000) thread (λ _. 0) heap thread_after (λ _. 0) refl
      heap-IsSized (omega arith) runs
