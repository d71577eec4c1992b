-- ===== src/Gc/Closure.antt =====
-- `closure_call` of runtime/gc_stack.c. The code of a closure is the compiler's, so that what a call
-- of an address does is a parameter.
use certirocq.Prelude.{ℕ, ◌+◌}
use certirocq.Values.{Memory}
use certirocq.Gc.Types.{Result}

-- `struct closure`: the code, and the environment that it is called with.
abbrev pub func : Memory → ℕ → ℕ
func m clo = m clo

abbrev pub env : Memory → ℕ → ℕ
env m clo = m (clo + 8)

-- `S` is the state that compiled code works on, which holds the memory.
unfoldable pub closure_call :
    {S : Type 0}
    → (memory : S → Memory) → (enter : (code env arg : ℕ) → S → Result (ℕ × S)) → (clo arg : ℕ) → S
    → Result (ℕ × S)
closure_call memory enter clo arg s = enter (func (memory s) clo) (env (memory s) clo) arg s
