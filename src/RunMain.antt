-- ===== src/RunMain.antt =====
-- runtime/certirocq_run_main.c: the entry of a compiled program, which is the parameter `body`.
use certirocq.Prelude.{ℕ, ◌≡◌, ◌≢◌, refl}
use certirocq.Values.{Memory}
use certirocq.Gc.Types.{ThreadInfo, Result, ok, ◌>>=◌}
use certirocq.Gc.Heap.{make_tinfo}
use certirocq.Gc.Heap.Laws.{make_tinfo-IsThread}
use certirocq.Gc.Alloc.{World}

-- The exit status with what the program leaves. `init_gmp_alloc` is commented out.
unfoldable pub run_main :
    (body : World → World)
    → (heap nursery malloced : ℕ) (args : ℕ → ℕ) → Memory
    → Result (ℕ × World)
run_main body heap nursery malloced args m = do
  tinfo ← make_tinfo heap nursery malloced args
  ok (0, body (tinfo, m))

-- The program runs once, on a new thread, and the status is 0.
pub run_main-make_tinfo :
    (body : World → World) (heap nursery malloced : ℕ) (args : ℕ → ℕ) (m : Memory)
    → heap ≢ 0
    → nursery ≢ 0
    → malloced ≢ 0
    → (ti : ThreadInfo) × (make_tinfo heap nursery malloced args ≡ ok ti)
      × (run_main body heap nursery malloced args m ≡ ok (0, body (ti, m)))
unfolding run_main
run_main-make_tinfo body heap nursery malloced args m h n t =
    let (ti, k, made, thread, start, next, limit, rem_limit, alloc, ti_limit, later) =
      make_tinfo-IsThread heap nursery malloced args h n t in
    (ti, made, rw made refl)
