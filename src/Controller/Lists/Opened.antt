-- ===== src/Controller/Lists/Opened.antt =====
-- The connections that `ListVolumes` leaves open.
use csi_hostpath.Base.{
  ℕ, ◌+◌, ◌-◌, ◌≤◌, ◌≡◌, refl, ◌⊎◌, inl, inr, Option, none, some, List, [], ◌∷◌, Bool, true, false,
  not, Text, nat_eq, list_eq, ◌==◌, Outcome, ok, err, panic, Exec, pure, guard, or_fail, ◌>>=◌,
  ◌>>◌, if◌then◌else◌, continue, subst, arith,
}
use csi_hostpath.Cluster.{
  Cluster, PersistentVolume, get_node_name_from_csi_pv, get_vg_name_from_csi_pv,
}
use csi_hostpath.Client.{Connection}
use csi_hostpath.Controller.{
  Code, internal, Session, or_internal, call, close, get_node_conn, returned,
}
use csi_hostpath.Controller.Connections.{get_node_conn-cases}
use csi_hostpath.Controller.Snapshots.{dereference}
use csi_hostpath.Controller.Lists.{
  list_volume, list_volumes, each, volume_entry, get_all_pvs_of_local_csi, with_entry,
}

-- A call that ends with a result has closed what it opened; else one connection more may be open.
abbrev HasOpened : {E A : Type 0} → Outcome E A → ℕ → ℕ → Type 0
HasOpened (ok _) n m = m ≡ n
HasOpened (err _) n m = (n ≤ m) × (m ≤ n + 1)
HasOpened panic n m = (n ≤ m) × (m ≤ n + 1)

record Tidy {S A : Type 0} (m : Exec (Session S) Code A) : Type 0 where
  at : (s : Session S) → HasOpened (m s).0 s.1 (m s).1.1

module _ {S A : Type 0} where
  Tidy-pure : (a : A) → Tidy {S = S} (pure a)
  Tidy-pure a = record { at = λ s. refl }

  Tidy-dereference : (o : Option A) → Tidy {S = S} (dereference o)
  Tidy-dereference none = record { at = λ s. (omega arith, omega arith) }
  Tidy-dereference (some a) = record { at = λ s. refl }

  Tidy-or_fail : (o : Option A) (c : Code) → Tidy {S = S} (or_fail o c)
  Tidy-or_fail none c = record { at = λ s. (omega arith, omega arith) }
  Tidy-or_fail (some a) c = record { at = λ s. refl }

  Tidy-bind :
      {B : Type 0} (m : Exec (Session S) Code A) (f : A → Exec (Session S) Code B)
      → Tidy m
      → ((a : A) → Tidy (f a))
      → Tidy (m >>= f)
  Tidy-bind m f tm tf = record { at = λ s. go (m s).0 (m s).1 s.1 (tm.at s) }
    where
      go :
          (r : Outcome Code A) (t : Session S) (n : ℕ)
          → HasOpened r n t.1
          → HasOpened (continue r f t).0 n (continue r f t).1.1
      go (ok a) t n h = subst (λ k. HasOpened (f a t).0 k (f a t).1.1) h ((tf a).at t)
      go (err e) t n h = h
      go panic t n h = h

  Tidy-if : (b : Bool) (m k : Exec (Session S) Code A) → Tidy m → Tidy k → Tidy (if b then m else k)
  Tidy-if true m k tm tk = tm
  Tidy-if false m k tm tk = tk

Tidy-guard : {S : Type 0} (b : Bool) (c : Code) → Tidy {S = S} (guard b c)
Tidy-guard true c = record { at = λ s. refl }
Tidy-guard false c = record { at = λ s. (omega arith, omega arith) }

-- Over a connection that has just been opened
record TidyOver {S A : Type 0} (m : Exec (Session S) Code A) : Type 0 where
  at : (x : S) (n : ℕ) → HasOpened (m (x, n + 1)).0 n (m (x, n + 1)).1.1

module _ {S A B : Type 0} where
  -- A call whose error is returned, and the closing of the connection
  TidyOver-call :
      (g : S → (Text ⊎ A) × S) (k : A → Exec (Session S) Code B)
      → ((a : A) → Tidy (k a))
      → TidyOver (or_internal (call g) >>= λ a. (close >> k a))
  TidyOver-call g k tk = record { at = λ x n. go n (g x).0 (g x).1 }
    where
      go :
          (n : ℕ) (r : Text ⊎ A) (y : S)
          → let run =
              (or_internal (λ _. (returned r, (y, n + 1))) >>= λ a. (close >> k a)) (y, n + 1) in
            HasOpened run.0 n run.1.1
      go n (inl e) y = (omega arith, omega arith)
      go n (inr a) y =
          subst (λ j. HasOpened (k a (y, n + 1 - 1)).0 j (k a (y, n + 1 - 1)).1.1) (omega arith)
            ((tk a).at (y, n + 1 - 1))

module _ (K : Cluster) {S A : Type 0} where
  Tidy-conn :
      (node_name : Text) (f : Text → Exec (Session S) Code A)
      → ((addr : Text) → TidyOver (f addr))
      → Tidy (or_internal (get_node_conn K node_name) >>= f)
  Tidy-conn node_name f t = record {
    at = λ s. elim (get_node_conn-cases K {S = S} node_name) [
      | inl (e, run) ↦ rw (run s) ((omega arith, omega arith))
      | inr (addr, run) ↦ rw (run s) ((t addr).at s.0 s.1)
    ];
  }

module _ (K : Cluster) (conn : Connection) where
  list_volume-Tidy : (pv : PersistentVolume) → Tidy (list_volume K conn pv)
  unfolding list_volume
  list_volume-Tidy pv =
      let node_name = get_node_name_from_csi_pv pv in
      Tidy-if (get_vg_name_from_csi_pv pv == []) _ _ (Tidy-pure none) (
        Tidy-bind _ _ (Tidy-guard (not (node_name == [])) internal) (λ _.
          Tidy-conn K node_name _ (λ addr. TidyOver-call _ _ (λ found.
            Tidy-bind _ _ (Tidy-dereference found) (λ vol_obj.
              Tidy-bind _ _ (Tidy-dereference pv.csi)
                (λ source. Tidy-pure (some (volume_entry pv source vol_obj))))))))

  each-Tidy : (pvs : List PersistentVolume) → Tidy (each (list_volume K conn) pvs)
  unfolding each
  each-Tidy [] = Tidy-pure []
  each-Tidy (pv ∷ pvs) =
      Tidy-bind _ _ (list_volume-Tidy pv)
        (λ e. Tidy-bind _ _ (each-Tidy pvs) (λ entries. Tidy-pure (with_entry e entries)))

  -- However `ListVolumes` ends, the connections that were open still are, with one more at most, and with
  -- none more where it returns the entries.
  pub list_volumes_opened :
      (s : Session conn.State)
      → let run = list_volumes K conn s in
        (s.1 ≤ run.1.1)
        × (run.1.1 ≤ s.1 + 1)
        × ((entries : List _) → run.0 ≡ ok entries → run.1.1 ≡ s.1)
  unfolding list_volumes
  list_volumes_opened s = spell _ _ _ (whole.at s)
    where
      whole : Tidy (list_volumes K conn)
      whole =
          Tidy-bind _ _ (Tidy-or_fail (get_all_pvs_of_local_csi K) internal)
            (λ pvs. each-Tidy (K.range_volumes pvs))

      spell :
          {A : Type 0} (r : Outcome Code A) (n m : ℕ)
          → HasOpened r n m
          → (n ≤ m) × (m ≤ n + 1) × ((a : A) → r ≡ ok a → m ≡ n)
      spell (ok a) n m h = (omega arith, omega arith, λ a e. h)
      spell (err c) n m h = (h.0, h.1, λ a e. absurd cc)
      spell panic n m h = (h.0, h.1, λ a e. absurd cc)
