-- ===== src/Controller/Connections.antt =====
-- The connections that the handlers of the controller open, and close again: the rules.
pub mod Volumes
pub mod Snapshots
pub mod Groups
pub mod Handlers
use csi_hostpath.Base.{
  ℕ, suc, ◌+◌, ◌-◌, ◌≡◌, refl, Option, none, some, List, [], ◌∷◌, ◌++◌, ◌&&◌, Bool, true, false,
  inl, inr, Text, text, Outcome, ok, err, panic, Exec, pure, fail, crash, guard, or_fail, map_err,
  attempt, continue, ap, ◌∙◌, Option-cases, to_lower, ◌>>=◌, ◌>>◌, arith, Bool-cases, ◌⊎◌, not,
  ◌||◌, ◌==◌, list_eq, nat_eq, if◌then◌else◌,
}
use csi_hostpath.Base.Dict.{lookup}
use csi_hostpath.Base.Int.{to_uint64, pos, ℤ}
use csi_hostpath.Volume.{LogicalVolume}
use csi_hostpath.Cluster.{
  Cluster, PersistentVolume, get_node_addr, get_vg_name_from_csi_pv, get_node_name_from_csi_pv,
  get_volume_snapshot_content,
}
use csi_hostpath.Client.{Connection, VolOptions}
use csi_hostpath.Controller.{
  Code, invalid_argument, internal, unimplemented, Session, returned, or_internal, check, call,
  closing, close, new_grpc_connection, get_node_conn,
}
use csi_hostpath.Controller.Capacity.{get_rounded_capacity}
use csi_hostpath.Controller.Requests.{
  CreateVolumeRequest, ControllerExpandVolumeRequest, CreateSnapshotRequest,
  CreateVolumeGroupSnapshotRequest, validate_volume_create_req, validate_delete_volume_req,
  validate_snapshot_request, new_volume_params,
}
use csi_hostpath.Controller.Volumes.{
  ensure_volume, create_volume, delete_volume, delete_found, controller_expand_volume, is_gone,
  anno_selected_node, create_options, create_volume_response,
}
use csi_hostpath.Controller.Snapshots.{create_snapshot, delete_snapshot, dereference, snapshot_of}
use csi_hostpath.Controller.Groups.{
  taken, size_made, outcome, member_found, member_deleted, snapshot_connected, snapshot_found,
  snapshot_missing, snapshot_over, snapshot_volume, snapshot_all, create_volume_group_snapshot,
  delete_member, delete_volume_group_snapshot,
}

-- However the call ends, as many connections are open as before.
pub record Balanced {S E A : Type 0} (m : Exec (Session S) E A) : Type 0 where
  pub at : (s : Session S) → (m s).1.1 ≡ s.1

-- However the call ends, it has closed one connection.
pub record Closing {S E A : Type 0} (m : Exec (Session S) E A) : Type 0 where
  pub at : (s : Session S) → (m s).1.1 ≡ s.1 - 1

module _ {S E A : Type 0} where
  pub Balanced-pure : (a : A) → Balanced {S = S} {E = E} (pure a)
  Balanced-pure a = record { at = λ s. refl }

  pub Balanced-fail : (e : E) → Balanced {S = S} {A = A} (fail e)
  Balanced-fail e = record { at = λ s. refl }

  pub Balanced-or_fail : (o : Option A) (e : E) → Balanced {S = S} (or_fail o e)
  Balanced-or_fail o e = record { at = λ s. ground arith }

module _ {S E A B : Type 0} where
  pub Balanced-bind :
      (m : Exec (Session S) E A) (f : A → Exec (Session S) E B)
      → Balanced m
      → ((a : A) → Balanced (f a))
      → Balanced (m >>= f)
  Balanced-bind m f bm bf = record { at = λ s. go (m s).0 (m s).1 ∙ bm.at s }
    where
      go : (r : Outcome E A) (s : Session S) → (continue r f s).1.1 ≡ s.1
      go (ok a) s = (bf a).at s
      go (err e) s = refl
      go panic s = refl

module _ {S E A B : Type 0} where
  pub Balanced-then :
      (m : Exec (Session S) E A) (k : Exec (Session S) E B)
      → Balanced m
      → Balanced k
      → Balanced (m >> k)
  Balanced-then m k bm bk = Balanced-bind m _ bm (λ _. bk)

module _ {S E F A : Type 0} where
  pub Balanced-map_err :
      (h : E → F) (m : Exec (Session S) E A) → Balanced m → Balanced (map_err h m)
  Balanced-map_err h m b = record { at = b.at }

module _ {S E A : Type 0} where
  pub Balanced-attempt : (m : Exec (Session S) E A) → Balanced m → Balanced (attempt m)
  Balanced-attempt m b = record { at = b.at }

module _ {S : Type 0} where
  pub Balanced-guard : {E : Type 0} (b : Bool) (e : E) → Balanced {S = S} (guard b e)
  Balanced-guard b e = record { at = λ s. ground arith }

  pub Balanced-check : (o : Option Code) → Balanced {S = S} (check o)
  Balanced-check none = record { at = λ s. refl }
  Balanced-check (some c) = record { at = λ s. refl }

  pub Balanced-dereference : (o : Option Text) → Balanced {S = S} (dereference o)
  Balanced-dereference none = record { at = λ s. refl }
  Balanced-dereference (some c) = record { at = λ s. refl }

module _ {S A : Type 0} where
  pub Balanced-if :
      (b : Bool) (m k : Exec (Session S) Code A)
      → Balanced m
      → Balanced k
      → Balanced (if b then m else k)
  Balanced-if true m k bm bk = bm
  Balanced-if false m k bm bk = bk

  pub Balanced-option :
      {B : Type 0} (o : Option B) (m : Exec (Session S) Code A) (k : B → Exec (Session S) Code A)
      → Balanced m
      → ((b : B) → Balanced (k b))
      → Balanced (elim o [ none ↦ m | some b ↦ k b ])
  Balanced-option none m k bm bk = bm
  Balanced-option (some b) m k bm bk = bk b

  pub Balanced-call : (m : S → (Text ⊎ A) × S) → Balanced (or_internal (call m))
  Balanced-call m = record { at = λ s. refl }

  pub Balanced-outcome : (m : S → (Text ⊎ A) × S) → Balanced (outcome (call m))
  Balanced-outcome m = record { at = λ s. refl }

  pub outcome-call :
      (m : S → (Text ⊎ A) × S) (s : Session S)
      → (r : Outcome Text A) × (outcome (call m) s ≡ (ok r, ((m s.0).1, s.1)))
  outcome-call m s = go (m s.0).0 (m s.0).1
    where
      go :
          (r : Text ⊎ A) (n : S)
          → (o : Outcome Text A) × (outcome (λ _. (returned r, (n, s.1))) s ≡ (ok o, (n, s.1)))
      go (inl e) n = (err e, refl)
      go (inr a) n = (ok a, refl)

  pub Closing-closing : (m : Exec (Session S) Code A) → Balanced m → Closing (closing m)
  Closing-closing m b = record { at = λ s. ap (λ n. n - 1) (b.at s) }

module _ (K : Cluster) {S : Type 0} where
  -- A connection is there, or nothing has changed.
  pub get_node_conn-cases :
      (node_name : Text)
      → ((e : Text) × ((s : Session S) → get_node_conn K node_name s ≡ (err e, s)))
        ⊎ ((addr : Text) × ((s : Session S)
              → get_node_conn K node_name s ≡ (ok addr, (s.0, s.1 + 1))))
  unfolding get_node_conn new_grpc_connection
  get_node_conn-cases node_name = elim (Option-cases (K.node node_name)) [
    | inl e ↦ inl (text "node not found", λ s. rw e)
    | inr (node, e) ↦ elim (Option-cases (get_node_addr K node)) [
      | inl x ↦ inl (text "Node IP unknown", λ s. rw (e, x))
      | inr (addr, x) ↦ elim (Option-cases (K.dial addr)) [
        | inl y ↦ inr (addr, λ s. rw (e, x, y))
        | inr (d, y) ↦ inl (d, λ s. rw (e, x, y))
      ]
    ]
  ]

module _ (K : Cluster) {S A : Type 0} where
  -- What closes its connection, behind what opens it
  pub Balanced-conn :
      (node_name : Text) (f : Text → Exec (Session S) Code A)
      → ((addr : Text) → Closing (f addr))
      → Balanced (or_internal (get_node_conn K node_name) >>= f)
  Balanced-conn node_name f c = record {
    at = λ s. elim (get_node_conn-cases K {S = S} node_name) [
      | inl (e, run) ↦ rw (run s)
      | inr (addr, run) ↦ rw (run s) ((c addr).at (s.0, s.1 + 1) ∙ omega arith)
    ];
  }

  pub Balanced-outcome_conn :
      (node_name : Text) (f : Outcome Text Text → Exec (Session S) Code A)
      → ((addr : Text) → Closing (f (ok addr)))
      → ((e : Text) → Balanced (f (err e)))
      → Balanced (outcome (get_node_conn K node_name) >>= f)
  Balanced-outcome_conn node_name f c b = record {
    at = λ s. elim (get_node_conn-cases K {S = S} node_name) [
      | inl (e, run) ↦ rw (run s) ((b e).at s)
      | inr (addr, run) ↦ rw (run s) ((c addr).at (s.0, s.1 + 1) ∙ omega arith)
    ];
  }

module _ {S A B : Type 0} where
  -- A call whose error is only logged, before what closes the connection
  pub Closing-outcome :
      (m : S → (Text ⊎ A) × S) (f : Outcome Text A → Exec (Session S) Code B)
      → ((r : Outcome Text A) → Closing (f r))
      → Closing (outcome (call m) >>= f)
  Closing-outcome m f c = record {
    at = λ s.
        let (r, run) = outcome-call m s in
        ap (λ x. (continue x.0 f x.1).1.1) run ∙ (c r).at ((m s.0).1, s.1);
  }
