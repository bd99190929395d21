-- ===== src/FileSystem/Calm.antt =====
-- Calls that end, in a world where no system call fails, with a value or an error, and that leave
-- no fault behind.
use csi_hostpath.Base.{
  ◌≡◌, refl, ap, ◌∙◌, ◌≢◌, Bool, true, false, Option, none, some, [], ◌∷◌, ◌++◌, Text, Outcome, ok,
  err, panic, pure, fail, ◌>>=◌, ◌>>◌, attempt, continue, nat_eq, list_eq, if◌then◌else◌,
}
use csi_hostpath.FileSystem.{
  FilePath, Node, dir, file, Files, Fault, Os, quiet, system_call, os_open, read_all, mkdir_from,
  mkdir_all, open_file, write_string, exists, make_one, components, find, opened, bytes_of, is_some,
  create_in, open_existing, write_over, overlay,
}
use csi_hostpath.Base.Dict.{lookup, insert}

pub record IsCalm {A : Type 0} (m : Os A) : Type 0 where
  pub at :
      (d : Files)
      → (r : Outcome Text A) × (d' : Files) × (m (quiet d) ≡ (r, quiet d')) × (r ≢ panic)

module _ {A : Type 0} where
  pub IsCalm-pure : (a : A) → IsCalm (pure a)
  IsCalm-pure a = record { at = λ d. (ok a, d, refl, λ e. cc) }

  pub IsCalm-if : (b : Bool) (m n : Os A) → IsCalm m → IsCalm n → IsCalm (if b then m else n)
  IsCalm-if true m n km kn = km
  IsCalm-if false m n km kn = kn

  -- Only the branch of a system call that goes through is taken.
  pub IsCalm-system_call :
      (bad : Fault → Os A) (good : Os A) → IsCalm good → IsCalm (system_call bad good)
  unfolding system_call
  IsCalm-system_call bad good k = record { at = λ d. k.at d }

module _ {A B : Type 0} where
  pub IsCalm-bind :
      (m : Os A) (f : A → Os B) → IsCalm m → ((a : A) → IsCalm (f a)) → IsCalm (m >>= f)
  IsCalm-bind m f km kf = record { at = λ d. let (r, d1, e, n) = km.at d in go d r d1 e n }
    where
      go :
          (d : Files) (r : Outcome Text A) (d1 : Files)
          → m (quiet d) ≡ (r, quiet d1)
          → r ≢ panic
          → (s : Outcome Text B) × (d' : Files) × ((m >>= f) (quiet d) ≡ (s, quiet d'))
            × (s ≢ panic)
      go d (ok a) d1 e n =
          let (s, d2, e2, n2) = (kf a).at d1 in (s, d2, ap (λ x. continue x.0 f x.1) e ∙ e2, n2)
      go d (err x) d1 e n = (err x, d1, ap (λ x. continue x.0 f x.1) e, λ p. cc)
      go d panic d1 e n = absurd (n refl)

module _ {A : Type 0} where
  -- A call whose result is dropped returns.
  pub ignored :
      (m : Os A)
      → IsCalm m
      → (d : Files)
      → (d' : Files) × ((attempt m >> pure tt) (quiet d) ≡ (ok tt, quiet d'))
        × ((m (quiet d)).1 ≡ quiet d')
  ignored m k d = let (r, d', e, n) = k.at d in (d', go r d' e n, ap (λ x. x.1) e)
    where
      go :
          (r : Outcome Text A) (d' : Files)
          → m (quiet d) ≡ (r, quiet d')
          → r ≢ panic
          → (attempt m >> pure tt) (quiet d) ≡ (ok tt, quiet d')
      go (ok a) d' e n = rw e
      go (err x) d' e n = rw e
      go panic d' e n = absurd (n refl)

  pub IsCalm-ignore : (m : Os A) → IsCalm m → IsCalm (attempt m >> pure tt)
  IsCalm-ignore m k = record { at = λ d. let (d', e, _) = ignored m k d in (ok tt, d', e, λ p. cc) }

module _ {A : Type 0} where
  IsCalm-fail : (e : Text) → IsCalm (fail {A = A} e)
  IsCalm-fail e = record { at = λ d. (err e, d, refl, λ p. cc) }

  -- What depends on what is found at a path
  IsCalm-found :
      (c : FilePath) (g : Option Node → Os A)
      → ((o : Option Node) → IsCalm (g o))
      → IsCalm (λ w. g (find c w) w)
  IsCalm-found c g k = record { at = λ d. (k (lookup c d)).at d }

-- A step that changes the tree and succeeds
IsCalm-step : (f : Files → Files) → IsCalm (λ w. pure tt (record w { files = f w.files }))
IsCalm-step f = record { at = λ d. (ok tt, f d, refl, λ p. cc) }

module _ (t : Text) where
  pub IsCalm-os_open : IsCalm (os_open t)
  unfolding os_open
  IsCalm-os_open = IsCalm-system_call _ _ (IsCalm-found (components t) (opened t) each)
    where
      each : (o : Option Node) → IsCalm (opened t o)
      each none = IsCalm-fail _
      each (some n) = IsCalm-pure tt

  pub IsCalm-read_all : IsCalm (read_all t)
  unfolding read_all
  IsCalm-read_all = IsCalm-system_call _ _ (IsCalm-found (components t) (bytes_of t) each)
    where
      each : (o : Option Node) → IsCalm (bytes_of t o)
      each none = IsCalm-fail _
      each (some dir) = IsCalm-fail _
      each (some (file b)) = IsCalm-pure b

  pub IsCalm-exists : IsCalm (exists t)
  unfolding exists
  IsCalm-exists =
      IsCalm-system_call _ _
        (IsCalm-found (components t) (λ o. pure (is_some o)) (λ o. IsCalm-pure (is_some o)))

  IsCalm-make_one : (p : FilePath) → IsCalm (λ w. make_one t p (find p w) w)
  IsCalm-make_one p = IsCalm-found p (make_one t p) each
    where
      each : (o : Option Node) → IsCalm (make_one t p o)
      each none = IsCalm-system_call _ _ (IsCalm-step (insert p dir))
      each (some dir) = IsCalm-pure tt
      each (some (file b)) = IsCalm-fail _

  IsCalm-mkdir_from : (above cs : FilePath) → IsCalm (mkdir_from t above cs)
  unfolding mkdir_from
  IsCalm-mkdir_from above [] = IsCalm-pure tt
  IsCalm-mkdir_from above (c ∷ cs) =
      IsCalm-bind _ _ (IsCalm-make_one (above ++ (c ∷ [])))
        (λ _. IsCalm-mkdir_from (above ++ (c ∷ [])) cs)

  pub IsCalm-mkdir_all : IsCalm (mkdir_all t)
  unfolding mkdir_all
  IsCalm-mkdir_all = IsCalm-mkdir_from [] (components t)

  IsCalm-create_in : (p : FilePath) (o : Option Node) → IsCalm (create_in t p o)
  IsCalm-create_in p none = IsCalm-fail _
  IsCalm-create_in p (some dir) = IsCalm-step (insert p (file []))
  IsCalm-create_in p (some (file b)) = IsCalm-fail _

  pub IsCalm-open_file : (trunc : Bool) → IsCalm (open_file t trunc)
  unfolding open_file
  IsCalm-open_file trunc =
      IsCalm-system_call _ _
        (IsCalm-found (components t) (open_existing t (components t) trunc) (each trunc))
    where
      each : (b : Bool) (o : Option Node) → IsCalm (open_existing t (components t) b o)
      each true none = IsCalm-found _ (create_in t (components t)) (IsCalm-create_in (components t))
      each false none =
          IsCalm-found _ (create_in t (components t)) (IsCalm-create_in (components t))
      each true (some dir) = IsCalm-fail _
      each false (some dir) = IsCalm-fail _
      each true (some (file b)) = IsCalm-step (insert (components t) (file []))
      each false (some (file b)) = IsCalm-pure tt

  pub IsCalm-write_string : (b : Text) → IsCalm (write_string t b)
  unfolding write_string
  IsCalm-write_string b =
      IsCalm-system_call _ _
        (IsCalm-found (components t) (λ o w. pure tt (write_over (components t) b o w)) each)
    where
      each : (o : Option Node) → IsCalm (λ w. pure tt (write_over (components t) b o w))
      each none = IsCalm-step (λ d. d)
      each (some dir) = IsCalm-step (λ d. d)
      each (some (file old)) = IsCalm-step (insert (components t) (file (overlay b old)))
