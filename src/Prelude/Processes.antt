-- ===== src/Prelude/Processes.antt =====
-- A function of a process that can end the process, and writes down what it does to the system: what
-- it returns, or none where it has ended the process (`log.Fatal`, `os.Exit`), and its effects.
use mathlib.Core.Option.{Option, none, some}
use mathlib.Core.List.{List, [], ◌∷◌, ◌++◌}

abbrev pub Process : Type 0 → Type 0 → Type 0
Process E A = Option A × List E

module _ {E : Type 0} where
  abbrev pub go_on : {A B : Type 0} → Option A → (A → Process E B) → Process E B
  go_on none f = (none, [])
  go_on (some a) f = f a

  infixl 5 ◌>>=◌ ◌>>◌
  abbrev pub ◌>>=◌ : {A B : Type 0} → Process E A → (A → Process E B) → Process E B
  ◌>>=◌ m f = let (a, before) = m in let (b, after) = go_on a f in (b, before ++ after)

  abbrev pub ◌>>◌ : {B : Type 0} → Process E (Unit {0}) → Process E B → Process E B
  m >> n = m >>= λ _. n

  abbrev pub pure : {A : Type 0} → A → Process E A
  pure a = (some a, [])

  abbrev pub exit : {A : Type 0} → Process E A
  exit = (none, [])

  abbrev pub perform : E → Process E (Unit {0})
  perform x = (some tt, x ∷ [])

  -- A deferred call runs when the function returns, and not when the process ends in it.
  unfoldable pub deferred : {A : Type 0} → E → Process E A → Process E A
  deferred x (some a, effects) = (some a, effects ++ x ∷ [])
  deferred x (none, effects) = (none, effects)
