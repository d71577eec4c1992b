-- ===== src/Gc/Generation.antt =====
-- `do_generation` of runtime/gc_stack.c: the live objects of one space are copied into another.
pub mod Laws
pub mod Remembered
pub mod View
use certirocq.Prelude.{ℕ, suc, List}
use certirocq.Values.{Memory}
use certirocq.Gc.Types.{Space, StackFrame, Result, ok, ◌>>=◌, ◌>>◌, words}
use certirocq.Gc.Copy.{forward_remset, forward_roots, do_scan}

-- The two spaces and the memory afterwards.
pub record Generation : Type 0 where
  pub from : Space
  pub to : Space
  pub mem : Memory

-- The rounds of the scan: one for each word between its start and the limit of to-space is
-- enough, since a round passes at least one word.
abbrev pub scan_fuel : ℕ → ℕ → ℕ
scan_fuel p limit = suc (words p limit)

unfoldable pub do_generation : Space → Space → List StackFrame → Memory → Result Generation
unfolding forward_remset forward_roots do_scan
do_generation from to frames m = do
  (remembered, limit) ← forward_remset from to (record { mem = m; next = to.next })
  let rooted = forward_roots from.start from.limit frames remembered
  scanned ← do_scan from.start from.limit (scan_fuel to.next to.limit) to.next rooted
  ok (record {
    from = record from { next = from.start; limit = from.rem_limit };
    to = record to { next = scanned.next; limit = limit };
    mem = scanned.mem;
  })
