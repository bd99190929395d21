-- ===== src/FileSystem/Preserves.antt =====
-- A call leaves everything alone that is not below a path, whichever of its system calls fail. It
-- may make the directories that lead there.
use csi_hostpath.Base.{
  ◌⊎◌, inl, inr, ◌≡◌, refl, Bool, true, false, Option, none, some, List, [], ◌∷◌, Text, Outcome, ok,
  err, panic, pure, fail, ◌>>=◌, ◌>>◌, attempt, map_err, arith, has_prefix, nat_eq, list_eq,
  if◌then◌else◌, continue,
}
use csi_hostpath.FileSystem.{
  FilePath, World, Fault, Os, find, system_call, os_open, read_all, read_dir, exists,
}
use csi_hostpath.FileSystem.Laws.{Kept, Kept_trans, Kept-wider, has_prefix_trans}

pub record Preserves {A : Type 0} (p : FilePath) (m : Os A) : Type 0 where
  pub at :
      (w : World) (q : FilePath) → has_prefix p q ≡ false → Kept p q (find q w) (find q (m w).1)

module _ {A : Type 0} {p : FilePath} where
  pub Preserves-pure : (a : A) → Preserves p (pure a)
  Preserves-pure a = record { at = λ w q o. inl refl }

  pub Preserves-fail : (e : Text) → Preserves p (fail {A = A} e)
  Preserves-fail e = record { at = λ w q o. inl refl }

  pub Preserves-attempt : (m : Os A) → Preserves p m → Preserves p (attempt m)
  Preserves-attempt m k = record { at = k.at }

  pub Preserves-map_err : (g : Text → Text) (m : Os A) → Preserves p m → Preserves p (map_err g m)
  Preserves-map_err g m k = record { at = k.at }

  pub Preserves-if :
      (b : Bool) (m n : Os A) → Preserves p m → Preserves p n → Preserves p (if b then m else n)
  Preserves-if true m n km kn = km
  Preserves-if false m n km kn = kn

  pub Preserves-system_call :
      (bad : Fault → Os A) (good : Os A)
      → ((f : Fault) → Preserves p (bad f))
      → Preserves p good
      → Preserves p (system_call bad good)
  unfolding system_call
  Preserves-system_call bad good kb kg = record { at = λ w q o. go w.faults w q o }
    where
      go :
          (fs : List (Option Fault)) (w : World) (q : FilePath)
          → has_prefix p q ≡ false
          → Kept p q (find q w) (find q (system_call bad good (record w { faults = fs })).1)
      go [] w q o = kg.at _ q o
      go (none ∷ fs) w q o = kg.at _ q o
      go (some e ∷ fs) w q o = (kb e).at _ q o

module _ {A : Type 0} (bad : Fault → Os A) (good : Os A) where
  -- A system call fails or goes through, and taking the fault changes no file.
  pub system_call-cases :
      (w : World)
      → ((f : Fault) × (w' : World) × (system_call bad good w ≡ bad f w') × (w'.files ≡ w.files))
        ⊎ ((w' : World) × (system_call bad good w ≡ good w') × (w'.files ≡ w.files))
  unfolding system_call
  system_call-cases w = go w.faults w
    where
      go :
          (fs : List (Option Fault)) (v : World)
          → ((f : Fault) × (w' : World) × (system_call bad good (record v { faults = fs })
                ≡ bad f w')
              × (w'.files ≡ v.files))
            ⊎ ((w' : World) × (system_call bad good (record v { faults = fs }) ≡ good w')
                × (w'.files ≡ v.files))
      go [] v = inr (record v { faults = [] }, refl, refl)
      go (none ∷ fs) v = inr (record v { faults = fs }, refl, refl)
      go (some f ∷ fs) v = inl (f, record v { faults = fs }, refl, refl)

module _ {A B : Type 0} {p : FilePath} where
  pub Preserves-bind :
      (m : Os A) (f : A → Os B)
      → Preserves p m
      → ((a : A) → Preserves p (f a))
      → Preserves p (m >>= f)
  Preserves-bind m f km kf = record {
    at = λ w q o. Kept_trans p q _ _ _ (km.at w q o) (go (m w).0 (m w).1 q o);
  }
    where
      go :
          (r : Outcome Text A) (w : World) (q : FilePath)
          → has_prefix p q ≡ false
          → Kept p q (find q w) (find q (continue r f w).1)
      go (ok a) w q o = (kf a).at w q o
      go (err x) w q o = inl refl
      go panic w q o = inl refl

module _ {A B : Type 0} {p : FilePath} where
  pub Preserves-then : (m : Os A) (k : Os B) → Preserves p m → Preserves p k → Preserves p (m >> k)
  Preserves-then m k km kk = Preserves-bind m _ km (λ _. kk)

  -- What follows may use what is known of the result.
  pub Preserves-bind_known :
      (Q : A → Type 0) (m : Os A) (f : A → Os B)
      → Preserves p m
      → ((w : World) (a : A) → (m w).0 ≡ ok a → Q a)
      → ((a : A) → Q a → Preserves p (f a))
      → Preserves p (m >>= f)
  Preserves-bind_known Q m f km known kf = record {
    at = λ w q o. Kept_trans p q _ _ _ (km.at w q o) (go w q o (m w).0 refl);
  }
    where
      go :
          (w : World) (q : FilePath)
          → has_prefix p q ≡ false
          → (r : Outcome Text A) → (m w).0 ≡ r
          → Kept p q (find q (m w).1) (find q (continue r f (m w).1).1)
      go w q o (ok a) x = (kf a (known w a x)).at (m w).1 q o
      go w q o (err c) x = inl refl
      go w q o panic x = inl refl

-- What leaves alone all that is not below `c` leaves alone all that is not below `p`.
pub Preserves-wider :
    {A : Type 0} (m : Os A) (p c : FilePath) → has_prefix p c ≡ true → Preserves c m → Preserves p m
Preserves-wider m p c inside k = record {
  at = λ w q o. Kept-wider p c q _ _ inside o (k.at w q (has_prefix_trans p c q inside o));
}

module _ {p : FilePath} where
  pub Preserves-os_open : (t : Text) → Preserves p (os_open t)
  unfolding os_open
  Preserves-os_open t = record { at = λ w q o. inl (ground arith) }

  pub Preserves-read_all : (t : Text) → Preserves p (read_all t)
  unfolding read_all
  Preserves-read_all t = record { at = λ w q o. inl (ground arith) }

  pub Preserves-read_dir : (t : Text) → Preserves p (read_dir t)
  unfolding read_dir
  Preserves-read_dir t = record { at = λ w q o. inl (ground arith) }

  pub Preserves-exists : (t : Text) → Preserves p (exists t)
  unfolding exists
  Preserves-exists t = record { at = λ w q o. inl (ground arith) }
