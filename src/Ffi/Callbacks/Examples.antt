-- ===== src/Ffi/Callbacks/Examples.antt =====
-- An OCaml side that records the messages it gets, and registers another closure with each.
use certirocq.Prelude.{ℕ, ◌+◌, ◌≡◌, refl, inl, some, none, List, [], ◌∷◌}
use certirocq.Gc.Types.{ok}
use certirocq.Ffi.Callbacks.{Name, Caml, msg_info, msg_debug}
use certirocq.Ffi.Callbacks.Laws.{IsCaml, forget, send_all, answers, send_all-answers}

-- One cell, at 64, for all names.
abbrev recorder : Caml (ℕ × List (ℕ × ℕ))
recorder = record {
  caml_named_value = λ name w. some 64;
  value_at = λ p w. w.0;
  caml_callback = λ closure msg w. (w.0 + 1, (closure, msg) ∷ w.1);
}

recorder-IsCaml : IsCaml recorder
recorder-IsCaml = record { stays = λ name closure msg p w e. e }

abbrev messages : List (Name × ℕ)
messages = (msg_info, 10) ∷ (msg_debug, 20) ∷ (msg_info, 30) ∷ []

-- The third message goes to the closure that the second answer has registered.
answered : answers recorder messages (5, []) ≡ ok (8, (7, 30) ∷ (6, 20) ∷ (5, 10) ∷ [])
unfolding answers
answered = refl

send_all-answers_example :
    forget recorder (send_all recorder messages (λ _. none, (5, [])))
    ≡ answers recorder messages (5, [])
send_all-answers_example =
    send_all-answers recorder recorder-IsCaml messages (λ _. none) (5, []) (λ n. inl refl)
