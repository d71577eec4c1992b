-- ===== src/Ffi/Callbacks/Laws.antt =====
-- The cells of the names are looked up once, but every message goes to the closure that is registered
-- when it is sent.
use certirocq.Prelude.{
  ℕ, ◌≡◌, refl, ap, ◌∙◌, ◌⊎◌, inl, inr, Bool-cases, Option, none, some, List, [], ◌∷◌, true,
  if◌then◌else◌,
}
use certirocq.Gc.Types.{Result, ok, fail, null_closure, ◌>>=◌}
use certirocq.Ffi.Callbacks.{
  Name, msg_info, user_error, msg_debug, msg_notice, Caml, Statics, same_name, call_named,
}

-- A pointer that `caml_named_value` has returned stays the one for its name: a later registration
-- under the name changes the value in the cell.
pub record IsCaml {W : Type 0} (caml : Caml W) : Type 0 where
  pub stays :
      (name : Name) (closure msg p : ℕ) (w : W)
      → caml.caml_named_value name w ≡ some p
      → caml.caml_named_value name (caml.caml_callback closure msg w) ≡ some p

same_name-eq : (a b : Name) → same_name a b ≡ true → a ≡ b
same_name-eq msg_info msg_info e = refl
same_name-eq msg_info user_error e = absurd cc
same_name-eq msg_info msg_debug e = absurd cc
same_name-eq msg_info msg_notice e = absurd cc
same_name-eq user_error msg_info e = absurd cc
same_name-eq user_error user_error e = refl
same_name-eq user_error msg_debug e = absurd cc
same_name-eq user_error msg_notice e = absurd cc
same_name-eq msg_debug msg_info e = absurd cc
same_name-eq msg_debug user_error e = absurd cc
same_name-eq msg_debug msg_debug e = refl
same_name-eq msg_debug msg_notice e = absurd cc
same_name-eq msg_notice msg_info e = absurd cc
same_name-eq msg_notice user_error e = absurd cc
same_name-eq msg_notice msg_debug e = absurd cc
same_name-eq msg_notice msg_notice e = refl

module _ {W : Type 0} (caml : Caml W) where
  -- A sequence of messages of any kinds.
  unfoldable pub send_all : List (Name × ℕ) → Statics × W → Result (Statics × W)
  send_all [] s = ok s
  send_all ((name, msg) ∷ msgs) s = call_named caml name msg s >>= send_all msgs

  -- Each message is answered by the closure that is registered under its name at that moment; the
  -- first for which there is none stops the program.
  unfoldable pub answers : List (Name × ℕ) → W → Result W
  answers [] w = ok w
  answers ((name, msg) ∷ msgs) w = elim (caml.caml_named_value name w) [
    | none ↦ fail null_closure
    | some p ↦ answers msgs (caml.caml_callback (caml.value_at p w) msg w)
  ]

  -- The variables that are set hold the cells of their names.
  abbrev pub AreCells : Statics → W → Type 0
  AreCells statics w =
      (n : Name)
      → (statics n ≡ none) ⊎ ((p : ℕ) × (statics n ≡ some p) × (caml.caml_named_value n w ≡ some p))

  -- The OCaml side of a result.
  abbrev pub forget : Result (Statics × W) → Result W
  forget (ok s) = ok s.1
  forget (fail e) = fail e

  abbrev remember : Name → ℕ → Statics → Statics
  remember name p statics n = if same_name n name then some p else statics n

  call_named-cell :
      (name : Name) (msg : ℕ) (statics : Statics) (w : W)
      → AreCells statics w
      → call_named caml name msg (statics, w) ≡ elim (caml.caml_named_value name w) [
        | none ↦ fail null_closure
        | some p ↦ ok (remember name p statics, caml.caml_callback (caml.value_at p w) msg w)
      ]
  unfolding call_named
  call_named-cell name msg statics w cells = elim (cells name) [
    | inl unset ↦ rw unset refl
    | inr (p, set, named) ↦ rw (set, named) refl
  ]

  module _ (laws : IsCaml caml) where
    remember-AreCells :
        (name : Name) (p closure msg : ℕ) (statics : Statics) (w : W)
        → AreCells statics w
        → caml.caml_named_value name w ≡ some p
        → AreCells (remember name p statics) (caml.caml_callback closure msg w)
    remember-AreCells name p closure msg statics w cells named n =
        elim (Bool-cases (same_name n name)) [
          | inl same ↦
              let e = same_name-eq n name same in
              inr (
                p,
                rw same refl,
                laws.stays n closure msg p w (ap (λ k. caml.caml_named_value k w) e ∙ named),
              )
          | inr other ↦ elim (cells n) [
            | inl unset ↦ inl (rw other unset)
            | inr (q, set, named') ↦ inr (q, rw other set, laws.stays n closure msg q w named')
          ]
        ]

    -- Messages of any kinds, sent in any order from variables that are unset or hold the cells of
    -- their names: each goes to the closure that is registered under its name when it is sent, also
    -- when an earlier answer has registered another one, and the first message for whose name there
    -- is none stops the program.
    pub send_all-answers :
        (msgs : List (Name × ℕ)) (statics : Statics) (w : W)
        → AreCells statics w
        → forget (send_all msgs (statics, w)) ≡ answers msgs w
    unfolding send_all answers
    send_all-answers [] statics w cells = refl
    send_all-answers ((name, msg) ∷ msgs) statics w cells =
        let step = call_named-cell name msg statics w cells in
        ap (λ r. forget (r >>= send_all msgs)) step
        ∙ next (λ statics' w' cells'. send_all-answers msgs statics' w' cells')
            (caml.caml_named_value name w) refl
      where
        next :
            ((statics' : Statics) (w' : W)
              → AreCells statics' w'
              → forget (send_all msgs (statics', w')) ≡ answers msgs w')
            → (found : Option ℕ) → caml.caml_named_value name w ≡ found
            → forget (
                (elim found [
                  | none ↦ fail null_closure
                  | some p ↦
                      ok (remember name p statics, caml.caml_callback (caml.value_at p w) msg w)
                ])
                >>= send_all msgs)
              ≡ elim found [
                | none ↦ fail null_closure
                | some p ↦ answers msgs (caml.caml_callback (caml.value_at p w) msg w)
              ]
        next rest none named = refl
        next rest (some p) named =
            rest (remember name p statics) (caml.caml_callback (caml.value_at p w) msg w)
              (remember-AreCells name p (caml.value_at p w) msg statics w cells named)
