-- ===== src/Controller/Lists/Counted.antt =====
-- The connections that `ListSnapshots` leaves open, against the entries that it returns.
use csi_hostpath.Base.{
  ℕ, suc, ◌+◌, ◌≤◌, ◌≡◌, sym, inl, inr, Option, none, some, List, [], ◌∷◌, Bool, true, false, Text,
  nat_eq, list_eq, ◌==◌, Outcome, ok, err, panic, Exec, pure, ◌>>=◌, if◌then◌else◌, continue, subst,
  arith, length, ◌≢◌,
}
use csi_hostpath.Volume.{LogicalVolume}
use csi_hostpath.Cluster.{
  Cluster, PersistentVolume, VolumeSnapshotContent, vg_name_key, get_node_name_from_csi_pv,
}
use csi_hostpath.Client.{Connection}
use csi_hostpath.Controller.{Code, Session, get_node_conn}
use csi_hostpath.Controller.Connections.{get_node_conn-cases, outcome-call}
use csi_hostpath.Controller.Requests.{at, Snapshot}
use csi_hostpath.Controller.Snapshots.{dereference}
use csi_hostpath.Controller.Groups.{outcome}
use csi_hostpath.Controller.Lists.{
  list_snapshot, list_snapshots, snapshot_read, snapshot_dialled, snapshot_source, each,
  get_all_snapshot_content_of_local_csi, with_entry,
}

-- A round that returns an entry has closed what it opened. No round returns an error, and one that
-- returns no entry, or panics, has left one connection open at most.
abbrev HasCounted : {A : Type 0} → Outcome Code (Option A) → ℕ → ℕ → Type 0
HasCounted (ok (some _)) n m = m ≡ n
HasCounted (ok none) n m = (n ≤ m) × (m ≤ n + 1)
HasCounted (err _) n m = ⊥
HasCounted panic n m = (n ≤ m) × (m ≤ n + 1)

record Counts {S A : Type 0} (m : Exec (Session S) Code (Option A)) : Type 0 where
  at : (s : Session S) → HasCounted (m s).0 s.1 (m s).1.1

-- The same of a loop: what it leaves open and its entries are no more than the rounds.
abbrev HasListed : {A : Type 0} → Outcome Code (List A) → ℕ → ℕ → ℕ → Type 0
HasListed (ok entries) k n m = (n ≤ m) × (m + length entries ≤ n + k)
HasListed (err _) k n m = ⊥
HasListed panic k n m = (n ≤ m) × (m ≤ n + k)

module _ {S A : Type 0} where
  Counts-none : Counts {S = S} {A = A} (pure none)
  Counts-none = record { at = λ s. (omega arith, omega arith) }

  Counts-dereference :
      {B : Type 0} (o : Option B) (f : B → Exec (Session S) Code (Option A))
      → ((b : B) → Counts (f b))
      → Counts (dereference o >>= f)
  Counts-dereference none f c = record { at = λ s. (omega arith, omega arith) }
  Counts-dereference (some b) f c = record { at = λ s. (c b).at s }

  Counts-if :
      (b : Bool) (m l : Exec (Session S) Code (Option A))
      → Counts m
      → Counts l
      → Counts (if b then m else l)
  Counts-if true m l cm cl = cm
  Counts-if false m l cm cl = cl

module _ {S A B : Type 0} (f : A → Exec (Session S) Code (Option B))
    (c : (a : A) → Counts (f a)) where
  last_listed :
      (e : Option B) (r : Outcome Code (List B)) (k n j : ℕ) (u : Session S)
      → HasCounted (ok e) n j
      → HasListed r k j u.1
      → let run = continue r (λ entries. pure (with_entry e entries)) u in
        HasListed run.0 (suc k) n run.1.1
  last_listed (some b) (ok entries) k n j u h g = (omega (arith, g.0, h), omega (arith, g.1, h))
  last_listed none (ok entries) k n j u h g = (omega (arith, g.0, h.0), omega (arith, g.1, h.1))
  last_listed e (err x) k n j u h g = g
  last_listed (some b) panic k n j u h g = (omega (arith, g.0, h), omega (arith, g.1, h))
  last_listed none panic k n j u h g = (omega (arith, g.0, h.0), omega (arith, g.1, h.1))

  round_listed :
      (rest : Exec (Session S) Code (List B)) (k : ℕ)
      → ((t : Session S) → HasListed (rest t).0 k t.1 (rest t).1.1)
      → (r : Outcome Code (Option B)) (n : ℕ) (t : Session S) → HasCounted r n t.1
      → let run = continue r (λ e. rest >>= λ entries. pure (with_entry e entries)) t in
        HasListed run.0 (suc k) n run.1.1
  round_listed rest k more (ok e) n t h = last_listed e (rest t).0 k n t.1 (rest t).1 h (more t)
  round_listed rest k more (err x) n t h = h
  round_listed rest k more panic n t h = (h.0, omega (arith, h.1))

  each-HasListed :
      (l : List A) (s : Session S) → HasListed (each f l s).0 (length l) s.1 (each f l s).1.1
  unfolding each
  each-HasListed [] s = (omega arith, omega arith)
  each-HasListed (a ∷ rest) s =
      round_listed (each f rest) (length rest) (each-HasListed rest) (f a s).0 s.1 (f a s).1
        ((c a).at s)

module _ (conn : Connection) where
  read_count :
      (snap lv : Text) (r : Outcome Text (Option LogicalVolume)) (x : conn.State) (n : ℕ)
      → let run = snapshot_read conn snap lv r (x, n + 1) in HasCounted run.0 n run.1.1
  unfolding snapshot_read
  read_count snap lv (ok none) x n = (omega arith, omega arith)
  read_count snap lv (ok (some v)) x n = omega arith
  read_count snap lv (err _) x n = (omega arith, omega arith)
  read_count snap lv panic x n = (omega arith, omega arith)

  -- With the connection that has been opened
  dialled_count :
      (vg snap lv addr : Text) (x : conn.State) (n : ℕ)
      → let run = snapshot_dialled conn vg snap lv (ok addr) (x, n + 1) in
        HasCounted run.0 n run.1.1
  unfolding snapshot_dialled
  dialled_count vg snap lv addr x n =
      let (r, run) = outcome-call (conn.get_volume addr vg snap) (x, n + 1) in
      subst
        (λ w. let end = continue w.0 (snapshot_read conn snap lv) w.1 in HasCounted end.0 n end.1.1)
        (sym run) (read_count snap lv r (conn.get_volume addr vg snap x).1 n)

module _ (K : Cluster) (conn : Connection) where
  dialled-Counts :
      (node_name vg snap lv : Text)
      → Counts (outcome (get_node_conn K node_name) >>= snapshot_dialled conn vg snap lv)
  unfolding snapshot_dialled
  dialled-Counts node_name vg snap lv = elim (get_node_conn-cases K {S = conn.State} node_name) [
    | inl (e, run) ↦ record { at = λ s. rw (run s) (omega arith, omega arith) }
    | inr (addr, run) ↦ record { at = λ s. rw (run s) (dialled_count conn vg snap lv addr s.0 s.1) }
  ]

  source-Counts :
      (snap lv : Text) (o : Option PersistentVolume) → Counts (snapshot_source K conn snap lv o)
  unfolding snapshot_source
  source-Counts snap lv none = Counts-none
  source-Counts snap lv (some pv) = Counts-dereference pv.csi _ (λ source.
      Counts-if (get_node_name_from_csi_pv pv == []) _ _ Counts-none (
        dialled-Counts (get_node_name_from_csi_pv pv) (at source.volume_attributes vg_name_key) snap
          lv))

  list_snapshot-Counts : (content : VolumeSnapshotContent) → Counts (list_snapshot K conn content)
  unfolding list_snapshot
  list_snapshot-Counts content = Counts-dereference content.status _ (λ status.
      Counts-dereference status.ready_to_use _ (λ ready.
        Counts-if ready _ _
          (Counts-dereference content.volume_handle _ (λ lv_name.
            Counts-dereference status.snapshot_handle _
              (λ snap_name. source-Counts snap_name lv_name (K.persistent_volume lv_name))))
          Counts-none))

  -- `ListSnapshots` never returns an error. Where it returns entries, the connections that were open
  -- still are, and the further ones that it has left open are no more than the snapshot contents
  -- of the driver that have no entry; where it panics, they are no more than all these contents.
  pub list_snapshots_opened :
      (s : Session conn.State)
      → let run = list_snapshots K conn s in
        let contents = K.range_contents (get_all_snapshot_content_of_local_csi K) in
        ((c : Code) → run.0 ≢ err c)
        × ((entries : List Snapshot)
            → run.0 ≡ ok entries
            → (s.1 ≤ run.1.1) × (run.1.1 + length entries ≤ s.1 + length contents))
        × (run.0 ≡ panic → (s.1 ≤ run.1.1) × (run.1.1 ≤ s.1 + length contents))
  unfolding list_snapshots
  list_snapshots_opened s =
      let contents = K.range_contents (get_all_snapshot_content_of_local_csi K) in
      spell _ _ _ _ (each-HasListed (list_snapshot K conn) list_snapshot-Counts contents s)
    where
      spell :
          {A : Type 0} (r : Outcome Code (List A)) (k n m : ℕ)
          → HasListed r k n m
          → ((c : Code) → r ≢ err c)
            × ((entries : List A) → r ≡ ok entries → (n ≤ m) × (m + length entries ≤ n + k))
            × (r ≡ panic → (n ≤ m) × (m ≤ n + k))
      spell (ok entries) k n m h = (
        λ c e. cc,
        λ l e. subst (λ l. (n ≤ m) × (m + length l ≤ n + k)) (listed e) h,
        λ e. absurd cc,
      )
        where
          listed : {l : List _} → Path (Outcome Code (List _)) (ok entries) (ok l) → entries ≡ l
          listed e = cc
      spell (err c) k n m h = absurd h
      spell panic k n m h = (λ c e. cc, λ l e. absurd cc, λ e. h)
