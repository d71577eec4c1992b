-- ===== src/Gc/Copy.antt =====
-- The copying machinery of runtime/gc_stack.c: `Is_from`, `forward`, `forward_remset`,
-- `forward_roots` and `do_scan`. The next free address of to-space, which the C code passes by
-- reference, is part of the state.
pub mod Blocks
pub mod Invariant
pub mod Place
pub mod Steps
pub mod Forward
pub mod Settled
pub mod Loop
pub mod Depth
pub mod Advance
pub mod Scan
pub mod Roots
pub mod Fields
pub mod Evacuate
pub mod Overwrite
pub mod Outside
pub mod Entry
pub mod Remset
use certirocq.Prelude.{
  ℕ, zero, suc, ◌+◌, ◌-◌, ◌*◌, List, [], ◌∷◌, Bool, ◌==◌, ◌&&◌, leb, ltb, if◌then◌else◌,
}
use certirocq.Values.{Memory, store, hd_val, field, is_block, tag_hd, wosize_hd, no_scan}
use certirocq.Gc.Types.{
  StackFrame, Space, depth, Result, ok, fail, out_of_fuel, assertion, check, ◌>>=◌, ◌>>◌, words,
}

-- `test_int_or_ptr(x) == 0`.
abbrev pub is_ptr : ℕ → Bool
is_ptr x = is_block x

abbrev pub is_from : ℕ → ℕ → ℕ → Bool
is_from from_start from_limit v = leb from_start v && ltb v from_limit

pub record Copy : Type 0 where
  pub mem : Memory
  pub next : ℕ

-- `f` at `n` consecutive words from `a` on.
unfoldable pub for_words : (ℕ → Copy → Copy) → ℕ → ℕ → Copy → Copy
for_words f zero a c = c
for_words f (suc n) a c = for_words f n (a + 8) (f a c)

-- `Field(newv, i) = Field(v, i)`, at the fields that are left.
unfoldable pub copy_fields : ℕ → ℕ → ℕ → Memory → Memory
copy_fields zero newv v m = m
copy_fields (suc n) newv v m = copy_fields n (newv + 8) (v + 8) (store m newv (m v))

-- The object at `v`, with header `hd`, is copied to `next`; the old header becomes 0, the old
-- first field the address of the copy, and so does the word at `p`.
unfoldable pub move : ℕ → ℕ → ℕ → Copy → Copy
unfolding copy_fields wosize_hd
move hd v p c =
    let newv = c.next + 8 in
    let m = copy_fields (wosize_hd hd) newv v (store c.mem c.next hd) in
    record { mem = store (store (store m (v - 8) 0) v newv) p newv; next = newv + 8 * wosize_hd hd }

module _ (from_start from_limit : ℕ) where
  -- `forward`, by recursion on the depth of its search. `Moves` is decided by the header.
  unfoldable pub forward : ℕ → ℕ → Copy → Copy
  unfolding move is_block for_words tag_hd no_scan
  forward zero p c =
      let va = c.mem p in
      let hd = hd_val c.mem va in
      if is_ptr va && is_from from_start from_limit va
      then (if hd == 0 then record c { mem = store c.mem p (field c.mem va 0) } else move hd va p c)
      else c
  forward (suc d) p c =
      let va = c.mem p in
      let hd = hd_val c.mem va in
      let moved = move hd va p c in
      let deeper = for_words (forward d) (wosize_hd hd) (c.next + 8) moved in
      if is_ptr va && is_from from_start from_limit va
      then (if hd == 0
          then record c { mem = store c.mem p (field c.mem va 0) }
          else if no_scan (tag_hd hd)
          then moved
          else deeper)
      else c

  -- The loop of `do_scan`, on fuel.
  unfoldable pub do_scan : ℕ → ℕ → Copy → Result Copy
  unfolding forward for_words tag_hd wosize_hd no_scan
  do_scan zero s c = fail out_of_fuel
  do_scan (suc fuel) s c =
      let hd = c.mem s in
      let size = wosize_hd hd in
      let scanned = if no_scan (tag_hd hd) then c else for_words (forward depth) size (s + 8) c in
      let rest = do_scan fuel (s + 8 * (1 + size)) scanned in if ltb s c.next then rest else ok c

  unfoldable pub forward_roots : List StackFrame → Copy → Copy
  unfolding forward for_words
  forward_roots [] c = c
  forward_roots (f ∷ frames) c =
      forward_roots frames (for_words (forward depth) (words f.root f.next) f.root c)

-- The loop of `forward_remset` over the entries that are left, `q` being the next of them. The
-- second part of the state is the limit of to-space, below which the entries that stay are pushed.
module _ (from_start from_limit : ℕ) where
  unfoldable pub remset_loop : ℕ → ℕ → Copy × ℕ → Copy × ℕ
  unfolding forward
  remset_loop zero q (c, limit) = (c, limit)
  remset_loop (suc n) q (c, limit) =
      let p = c.mem q in
      let c' = forward from_start from_limit depth p c in
      let pushed = record c' { mem = store c'.mem (limit - 8) p } in
      remset_loop n (q + 8) (
        if is_from from_start from_limit p
        then (c, limit)
        else if c.mem p == c'.mem p
        then (c', limit)
        else (pushed, limit - 8))

unfoldable pub forward_remset : Space → Space → Copy → Result (Copy × ℕ)
unfolding remset_loop
forward_remset from to c = do
  check (leb (words from.limit from.rem_limit) (words to.start to.limit)) assertion
  ok (remset_loop from.start from.limit (words from.limit from.rem_limit) from.limit (c, to.limit))
