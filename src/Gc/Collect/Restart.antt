-- ===== src/Gc/Collect/Restart.antt =====
-- What every run of `garbage_collect` that returns leaves for the mutator.
mod Examples
use certirocq.Prelude.{
  ℕ, zero, suc, ◌+◌, ◌-◌, ◌≤◌, ◌≡◌, ◌≢◌, refl, sym, ap, ◌∙◌, ◌⊎◌, inl, inr, Bool-cases, some, arith,
  if◌then◌else◌,
}
use certirocq.Values.{Memory}
use certirocq.Gc.Types.{
  Heap, ThreadInfo, nursery_size, nursery_too_small, Result, ok, fail, words, ◌>>=◌, ◌>>◌,
}
use certirocq.Gc.Heap.{resume, unsigned_words}
use certirocq.Gc.Heap.Laws.{resume_cases}
use certirocq.Gc.Collect.{
  Collected, with_next, collect_into, has_room, collect_from, close_nursery, garbage_collect,
}
use certirocq.Gc.Collect.Sizes.{
  bind-ok, IsSized, Kept, IsEmpty, set_space-IsSized, ok-inj, with_next-NextExists,
  collect_into-AfterRound,
}

-- What `garbage_collect` leaves, whatever the number of generations it has collected.
pub record IsRestarted (ti : ThreadInfo) (h : Heap) (ti' : ThreadInfo) (h' : Heap) : Type 0 where
  pub thread : ti' ≡ record ti { alloc = (h' 0).start; limit = (h' 0).limit; heap = some h' }
  pub full : words (h' 0).start (h' 0).limit ≡ nursery_size
  pub request : ti.nalloc ≤ nursery_size
  pub sized : IsSized h'
  pub kept : Kept h h'

Kept-trans : (h h' h'' : Heap) → Kept h h' → Kept h' h'' → Kept h h''
Kept-trans h h' h'' k k' i is = k' i (λ z. is (sym (k i is) ∙ z)) ∙ k i is

resume-IsRestarted :
    (h : Heap) (ti ti' : ThreadInfo)
    → IsSized h
    → (h 0).start ≢ 0
    → IsEmpty (h 0)
    → resume h ti ≡ ok ti'
    → IsRestarted ti h ti' h
resume-IsRestarted h ti ti' sized here empty e =
    let full : words (h 0).start (h 0).limit ≡ nursery_size =
      omega (arith, sized 0 here, empty.1) in
    elim (resume_cases h ti) [
      | inl (fits, goes) ↦ record {
        thread = sym (ok-inj _ ti' (sym goes ∙ e));
        full = full;
        request =
            rw full at
              (in_order (h 0).start (h 0).limit (omega (arith, sized 0 here, empty.1)) fits);
        sized = sized;
        kept = λ j _. refl;
      }
      | inr (short, stops) ↦ absurd (failure (sym stops ∙ e))
    ]
  where
    in_order : (lo hi : ℕ) → lo ≤ hi → ti.nalloc ≤ unsigned_words lo hi → ti.nalloc ≤ words lo hi
    in_order lo hi le fits = ground arith

    failure : fail nursery_too_small ≡ ok ti' → ⊥
    failure e = cc

collect_from-IsRestarted :
    (malloc : ℕ → ℕ) (n i : ℕ) (ti : ThreadInfo) (c : Collected) (r : ThreadInfo × Memory)
    → IsSized c.heap
    → (c.heap 0).start ≢ 0
    → (c.heap i).start ≢ 0
    → (i ≡ 0) ⊎ IsEmpty (c.heap 0)
    → collect_from malloc n i ti c ≡ ok r
    → (h' : Heap) × IsRestarted ti c.heap r.0 h'
unfolding collect_from
collect_from-IsRestarted malloc zero i ti c r sized first here empty e = absurd cc
collect_from-IsRestarted malloc (suc n) i ti c r sized first here empty e =
    let goes_on : Collected → Result (ThreadInfo × Memory) = λ c'.
      if has_room i c'.heap
      then (resume c'.heap ti >>= λ ti'. ok (ti', c'.mem))
      else collect_from malloc n (i + 1) ti c' in
    let (h, created, e1) =
      bind-ok (with_next malloc i c.heap)
        (λ h. collect_into i ti.fp (record { heap = h; mem = c.mem }) >>= goes_on) r e in
    let next = with_next-NextExists malloc i c.heap h sized here created in
    let (c', ran, e2) =
      bind-ok (collect_into i ti.fp (record { heap = h; mem = c.mem })) goes_on r e1 in
    let still : (h i).start ≢ 0 = λ z. here (sym (next.kept i here) ∙ z) in
    let same : h 0 ≡ c.heap 0 = next.same 0 (omega arith) in
    let round =
      collect_into-AfterRound i ti.fp h c.mem c' next.sized still next.exists (rw same empty) ran in
    let kept = Kept-trans c.heap h c'.heap next.kept round.kept in
    let first' : (c'.heap 0).start ≢ 0 = λ z. first (sym (kept 0 first) ∙ z) in
    elim (Bool-cases (has_room i c'.heap)) [
      | inl room ↦
          let (ti', resumed, e3) =
            bind-ok (resume c'.heap ti) (λ ti'. ok (ti', c'.mem)) r (rw room at e2) in
          let done = resume-IsRestarted c'.heap ti ti' round.sized first' round.empty resumed in
          (
            c'.heap,
            record {
              thread =
                  sym (ap (λ (p : ThreadInfo × Memory). p.0) (ok-inj (ti', c'.mem) r e3))
                  ∙ done.thread;
              full = done.full;
              request = done.request;
              sized = done.sized;
              kept = kept;
            },
          )
      | inr crowded ↦
          let above : (c'.heap (i + 1)).start ≢ 0 =
            λ z. next.exists (sym (round.kept (i + 1) next.exists) ∙ z) in
          let (h', later) =
            collect_from-IsRestarted malloc n (i + 1) ti c' r round.sized first' above
              (inr round.empty) (rw crowded at e2) in
          (
            h',
            record {
              thread = later.thread;
              full = later.full;
              request = later.request;
              sized = later.sized;
              kept = Kept-trans c.heap c'.heap h' kept later.kept;
            },
          )
    ]

-- On a heap whose generations have their sizes, whatever generations `garbage_collect` collects
-- and creates, when it returns every generation has its size again, 65536 words doubled for each
-- generation below it, and stands where it stood if it existed; the thread has a nursery with all
-- of its 65536 words free, of the other fields only the heap has changed, and the request was for
-- no more than these words.
pub garbage_collect-IsRestarted :
    (malloc : ℕ → ℕ) (ti : ThreadInfo) (m : Memory) (h : Heap) (ti' : ThreadInfo) (m' : Memory)
    → ti.heap ≡ some h
    → IsSized h
    → (h 0).start ≢ 0
    → garbage_collect malloc ti m ≡ ok (ti', m')
    → (h' : Heap) × IsRestarted ti h ti' h'
unfolding garbage_collect
garbage_collect-IsRestarted malloc ti m h ti' m' heap sized first e =
    let nursery = record (h 0) { limit = ti.limit; next = ti.alloc } in
    let (sized', kept) = set_space-IsSized h 0 nursery sized (sized 0 first) (λ _. refl) in
    let (h', restarted) =
      collect_from-IsRestarted malloc 42 0 ti (record { heap = close_nursery ti h; mem = m })
        (ti', m') sized' first first (inl refl) (rw heap at e) in
    (
      h',
      record {
        thread = restarted.thread;
        full = restarted.full;
        request = restarted.request;
        sized = restarted.sized;
        kept = Kept-trans h (close_nursery ti h) h' kept restarted.kept;
      },
    )
