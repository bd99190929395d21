-- ===== src/Base/Calls.antt =====
-- How a call ends, and calls that change a state. A Go call returns, returns an error or panics;
-- what it has written by then stays written.
use mathlib.Core.Bool.{Bool, true, false}
use mathlib.Core.Option.{Option, none, some}

pub data Outcome {ℓ} (E : Type ℓ) (A : Type ℓ) : Type ℓ where
  ok : A → Outcome E A
  err : E → Outcome E A
  panic : Outcome E A

abbrev pub Exec {ℓ} : Type ℓ → Type ℓ → Type ℓ → Type ℓ
Exec S E A = S → Outcome E A × S

module _ {ℓ} {S E A : Type ℓ} where
  abbrev pub pure : A → Exec S E A
  pure a s = (ok a, s)

  abbrev pub fail : E → Exec S E A
  fail e s = (err e, s)

  abbrev pub crash : Exec S E A
  crash s = (panic, s)

  abbrev pub or_fail : Option A → E → Exec S E A
  or_fail none e s = (err e, s)
  or_fail (some a) e s = (ok a, s)

module _ {ℓ} {S E : Type ℓ} where
  abbrev pub guard : Bool → E → Exec S E (Unit {ℓ})
  guard true e s = (ok tt, s)
  guard false e s = (err e, s)

module _ {ℓ} {S E A B : Type ℓ} where
  abbrev pub continue : Outcome E A → (A → Exec S E B) → Exec S E B
  continue (ok a) f s = f a s
  continue (err e) f s = (err e, s)
  continue panic f s = (panic, s)

  infixl 5 ◌>>=◌ ◌>>◌
  abbrev pub ◌>>=◌ : Exec S E A → (A → Exec S E B) → Exec S E B
  ◌>>=◌ m f s = let (r, s') = m s in continue r f s'

  abbrev pub ◌>>◌ : Exec S E A → Exec S E B → Exec S E B
  m >> k = m >>= λ _. k

module _ {ℓ} {E F A : Type ℓ} where
  abbrev pub to_error : (E → F) → Outcome E A → Outcome F A
  to_error f (ok a) = ok a
  to_error f (err e) = err (f e)
  to_error f panic = panic

module _ {ℓ} {S E F A : Type ℓ} where
  -- `if err != nil { return …, wrap(err) }`
  abbrev pub map_err : (E → F) → Exec S E A → Exec S F A
  map_err f m s = let (r, s') = m s in (to_error f r, s')

module _ {ℓ} {E A : Type ℓ} where
  abbrev caught : Outcome E A → Outcome E (Outcome E A)
  caught (ok a) = ok (ok a)
  caught (err e) = ok (err e)
  caught panic = panic

module _ {ℓ} {S E A : Type ℓ} where
  -- A call whose error the caller looks at. A panic is not caught.
  abbrev pub attempt : Exec S E A → Exec S E (Outcome E A)
  attempt m s = let (r, s') = m s in (caught r, s')
