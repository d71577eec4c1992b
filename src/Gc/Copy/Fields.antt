-- ===== src/Gc/Copy/Fields.antt =====
-- What the field-by-field copy leaves in memory.
use certirocq.Prelude.{ℕ, zero, suc, ◌+◌, ◌*◌, ◌≤◌, ◌<◌, ◌≡◌, refl, ◌⊎◌, ◌∙◌, arith}
use certirocq.Values.{Memory, store}
use certirocq.Gc.Copy.{copy_fields}

-- Words outside the destination are left alone.
pub copy_fields_outside :
    (n newv v : ℕ) (m : Memory) (a : ℕ)
    → (a < newv) ⊎ (newv + 8 * n ≤ a)
    → copy_fields n newv v m a ≡ m a
unfolding copy_fields
copy_fields_outside zero newv v m a out = refl
copy_fields_outside (suc n) newv v m a out =
    copy_fields_outside n (newv + 8) (v + 8) (store m newv (m v)) a (omega arith) ∙ kept
  where
    kept : store m newv (m v) a ≡ m a
    kept = ground arith

-- The destination holds the source's words, when the two do not overlap.
pub copy_fields_inside :
    (n newv v : ℕ) (m : Memory) (i : ℕ)
    → i < n
    → (v + 8 * n ≤ newv) ⊎ (newv + 8 * n ≤ v)
    → copy_fields n newv v m (newv + 8 * i) ≡ m (v + 8 * i)
unfolding copy_fields
copy_fields_inside zero newv v m i lt apart = absurd (omega arith)
copy_fields_inside (suc n) newv v m zero lt apart =
    let at : newv + 8 * 0 ≡ newv = omega arith in
    let from : v + 8 * 0 ≡ v = omega arith in
    rw (at, from)
      (copy_fields_outside n (newv + 8) (v + 8) (store m newv (m v)) newv (omega arith) ∙ written)
  where
    written : store m newv (m v) newv ≡ m v
    written = ground arith
copy_fields_inside (suc n) newv v m (suc i) lt apart =
    let at : newv + 8 * suc i ≡ newv + 8 + 8 * i = omega arith in
    let from : v + 8 * suc i ≡ v + 8 + 8 * i = omega arith in
    rw (at, from)
      (copy_fields_inside n (newv + 8) (v + 8) (store m newv (m v)) i (omega arith) (omega arith)
        ∙ kept)
  where
    kept : store m newv (m v) (v + 8 + 8 * i) ≡ m (v + 8 + 8 * i)
    kept = ground arith
