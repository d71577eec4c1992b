-- ===== src/Bootstrap/Copy.antt =====
-- certirocqc_wrapper.c: the copy of the compiler's result from the heap of the compiled program to
-- the OCaml heap.
pub mod Laws
use certirocq.Prelude.{
  ℕ, zero, suc, ◌+◌, List, [], ◌∷◌, Option, none, some, Bool, true, false, not, ◌==◌, ltb, leb,
  ◌&&◌, if◌then◌else◌, bit_and,
}
use certirocq.Values.{Memory, field, hd_val, wosize_val, tag_hd, is_long}
use certirocq.Gc.Types.{Heap, max_spaces}
use certirocq.Bootstrap.Ocaml.{OcamlHeap}

-- The loop of `in_certirocq_heap` from generation `i` on.
unfoldable pub in_certirocq_heap_from : ℕ → ℕ → Heap → ℕ → Bool
in_certirocq_heap_from zero i h v = false
in_certirocq_heap_from (suc n) i h v =
    let rest = in_certirocq_heap_from n (i + 1) h v in
    if not ((h i).start == 0) && (leb (h i).start v && ltb v (h i).rem_limit) then true else rest

unfoldable pub in_certirocq_heap : Heap → ℕ → Bool
unfolding in_certirocq_heap_from
in_certirocq_heap h v = in_certirocq_heap_from max_spaces 0 h v

-- `ElfW(Phdr)`, as far as it is read, with the tests of its type and flags.
pub record Phdr : Type 0 where
  pub p_type : ℕ
  pub p_flags : ℕ
  pub p_vaddr : ℕ
  pub p_memsz : ℕ

-- The segment of the code, as `code_start` and `code_end`.
pub record CodeRange : Type 0 where
  pub code_start : ℕ
  pub code_end : ℕ

abbrev pub pt_load : ℕ
pt_load = 1

abbrev pub pf_x : ℕ
pf_x = 1

-- The callback of `dl_iterate_phdr` for one object loaded at `dlpi_addr`.
unfoldable pub find_code_segment : (dlpi_addr : ℕ) → List Phdr → ℕ → Option CodeRange
find_code_segment addr [] f = none
find_code_segment addr (ph ∷ phs) f =
    let start = addr + ph.p_vaddr in
    let rest = find_code_segment addr phs f in
    if ph.p_type == pt_load
      && (not (bit_and ph.p_flags pf_x == 0) && (leb start f && ltb f (start + ph.p_memsz)))
    then some (record { code_start = start; code_end = start + ph.p_memsz })
    else rest

-- `find_code`: `dl_iterate_phdr` calls the callback for each loaded object, until it finds one. The
-- objects, each with its address, are those that the dynamic linker lists; `body` is the address of
-- the compiled program.
unfoldable pub find_code : List (ℕ × List Phdr) → (body : ℕ) → CodeRange → CodeRange
unfolding find_code_segment
find_code [] body code = code
find_code ((addr, phs) ∷ infos) body code =
    let rest = find_code infos body code in
    elim (find_code_segment addr phs body) [ none ↦ rest | some found ↦ found ]

abbrev pub in_code : CodeRange → ℕ → Bool
in_code code v = leb code.code_start v && ltb v code.code_end

-- `Val_unit`.
abbrev pub val_unit : ℕ
val_unit = 1

module _ (o : OcamlHeap) (h : Heap) (code : CodeRange) (m : Memory) where
  -- The loop over the fields from `i` on, `recur` being the recursive call.
  unfoldable pub copy_fields :
      (recur : ℕ → o.State → Option (ℕ × o.State))
      → ℕ
      → ℕ
      → (v result : ℕ) → o.State
      → Option (ℕ × o.State)
  copy_fields recur zero i v result s = some (result, s)
  copy_fields recur (suc n) i v result s = elim (recur (field m v i) s) [
    | none ↦ none
    | some (x, t) ↦ copy_fields recur n (i + 1) v result (o.store_field result i x t)
  ]

  unfoldable pub copy_with :
      (recur : ℕ → o.State → Option (ℕ × o.State)) → ℕ → o.State → Option (ℕ × o.State)
  unfolding copy_fields is_long in_certirocq_heap
  copy_with recur v s =
      if is_long v
      then some (v, s)
      else if not (in_certirocq_heap h v)
      then some (if in_code code v then val_unit else v, s)
      else (let (result, t) = o.caml_alloc (wosize_val m v) (tag_hd (hd_val m v)) s in
          copy_fields recur (wosize_val m v) 0 v result t)

  -- `copy_value`, for values that are nested at most this deep.
  unfoldable pub copy_value : ℕ → ℕ → o.State → Option (ℕ × o.State)
  unfolding copy_with
  copy_value zero v s = copy_with (λ _ _. none) v s
  copy_value (suc depth) v s = copy_with (copy_value depth) v s
