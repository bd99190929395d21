-- ===== src/Controller/Returns.antt =====
-- What is known of the parts of a sequence of calls that has returned.
use csi_hostpath.Base.{
  ◌≡◌, refl, Option, none, some, Bool, true, false, Outcome, ok, err, panic, Exec, guard, continue,
  ◌>>=◌,
}
use csi_hostpath.Controller.{Code, check}

-- A call that reads nothing of the state, and changes nothing
pub record Fixed {S E A : Type 0} (m : Exec S E A) : Type 0 where
  pub result : Outcome E A
  pub runs : (s : S) → m s ≡ (result, s)

module _ {S : Type 0} where
  pub Fixed-guard : {E : Type 0} (b : Bool) (c : E) → Fixed {S = S} (guard b c)
  Fixed-guard true c = record { result = ok tt; runs = λ s. refl }
  Fixed-guard false c = record { result = err c; runs = λ s. refl }

  pub Fixed-check : (o : Option Code) → Fixed {S = S} (check o)
  Fixed-check none = record { result = ok tt; runs = λ s. refl }
  Fixed-check (some c) = record { result = err c; runs = λ s. refl }

pub returned_same : {E A : Type 0} {a b : A} → Path (Outcome E A) (ok a) (ok b) → a ≡ b
returned_same e = cc

failed :
    {S E A : Type 0} {e : E} {a : A} {s s' : S} → Path (Outcome E A × S) (err e, s) (ok a, s') → ⊥
failed h = cc

pub pair : {A B : Type 0} {a b : A} {x y : B} → a ≡ b → x ≡ y → Path (A × B) (a, x) (b, y)
pair p q = rw (p, q)

module _ {S E A B : Type 0} where
  -- A sequence that returns has gone through.
  pub bind_ok :
      (m : Exec S E A) (f : A → Exec S E B) (s s' : S) (b : B)
      → (m >>= f) s ≡ (ok b, s')
      → (a : A) × (t : S) × (m s ≡ (ok a, t)) × (f a t ≡ (ok b, s'))
  bind_ok m f s s' b h = go (m s).0 (m s).1 refl h
    where
      go :
          (o : Outcome E A) (t : S)
          → m s ≡ (o, t)
          → continue o f t ≡ (ok b, s')
          → (a : A) × (t : S) × (m s ≡ (ok a, t)) × (f a t ≡ (ok b, s'))
      go (ok a) t run h = (a, t, run, h)
      go (err e) t run h = absurd (failed h)
      go panic t run h = cc
