-- ===== src/Floats/Next.antt =====
-- The neighbours of a floating-point number.
use certirocq.Prelude.{ℕ, ◌^◌, ◌<◌, ◌≡◌, refl, true, false, arith}
use certirocq.Prelude.Int.{pos, ◌+ℤ◌, ◌-ℤ◌}
use certirocq.Floats.{infinity, negate, isnan, position, double_lt, next_up, next_down}

-- `next_up` goes one place up in the order of all numbers: from every number but the positive
-- infinity, the negative one and both zeros included, to a number. It keeps the positive infinity
-- and NaN. `next_down` goes one place down in the same way.
pub next_up-position :
    (x : ℕ)
    → x < 2 ^ 64
    → (double_lt x infinity ≡ true
        → (position (next_up x) ≡ position x +ℤ pos 1) × (isnan (next_up x) ≡ false))
      × (double_lt x infinity ≡ false → next_up x ≡ x)
      × (double_lt (negate infinity) x ≡ true
          → (position (next_down x) ≡ position x -ℤ pos 1) × (isnan (next_down x) ≡ false))
      × (double_lt (negate infinity) x ≡ false → next_down x ≡ x)
unfolding next_up next_down ◌+ℤ◌ ◌-ℤ◌
next_up-position x h = (
  λ finite. (ground arith, ground arith),
  λ other. rw other refl,
  λ finite. (ground arith, ground arith),
  λ other. rw other refl,
)
