-- ===== src/Base/Run.antt =====
-- The outcome of a routine of the kernel, and chains of such routines over a state.
-- `panicked` is a call of panic, which halts the machine. `faulted` is an access outside the object
-- that the code means to access, which C leaves undefined. `spinning` is a wait that nothing ends,
-- as for a lock that its holder takes again. `out_of_fuel` is a loop that used up its rounds.
use mathlib.Core.Path.{◌≡◌}

pub data Run (S A : Type 0) : Type 0 where
  ok : A → S → Run S A
  panicked faulted spinning out_of_fuel : Run S A

abbrev pub Cmd : Type 0 → Type 0 → Type 0
Cmd S A = S → Run S A

module _ {S A : Type 0} where
  abbrev pub pure : A → Cmd S A
  pure = ok

module _ {S A B : Type 0} where
  abbrev pub and_then : Run S A → (A → Cmd S B) → Run S B
  and_then (ok a s) k = k a s
  and_then panicked k = panicked
  and_then faulted k = faulted
  and_then spinning k = spinning
  and_then out_of_fuel k = out_of_fuel

  infixl 5 ◌>>=◌ ◌>>◌
  abbrev pub ◌>>=◌ : Cmd S A → (A → Cmd S B) → Cmd S B
  m >>= k = λ s. and_then (m s) k

  abbrev pub ◌>>◌ : Cmd S A → Cmd S B → Cmd S B
  m >> k = λ s. and_then (m s) (λ _. k)

-- The state that a routine works on may be one field of a larger state.
module _ {S T A : Type 0} where
  abbrev pub on_part : (S → T) → (T → S → S) → Cmd T A → Cmd S A
  on_part part with_part m s = elim (m (part s)) [
    | ok a t ↦ ok a (with_part t s)
    | panicked ↦ panicked
    | faulted ↦ faulted
    | spinning ↦ spinning
    | out_of_fuel ↦ out_of_fuel
  ]

  pub on_part-ok :
      (part : S → T) (with_part : T → S → S) (m : Cmd T A) (s : S) (a : A) (t : T)
      → m (part s) ≡ ok a t
      → on_part part with_part m s ≡ ok a (with_part t s)
  on_part-ok part with_part m s a t e = rw (on_part, e)
