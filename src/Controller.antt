-- ===== src/Controller.antt =====
-- pkg/driver/controller.go: what the handlers of the controller share. Its state is that of the nodes,
-- with the number of connections that are open.
pub mod Capacity
pub mod Params
pub mod Requests
pub mod Volumes
pub mod Snapshots
pub mod Groups
pub mod Lists
pub mod Checks
pub mod Connections
pub mod Returns
pub mod Nodes
use csi_hostpath.Base.{
  ℕ, ◌+◌, ◌-◌, Option, none, some, List, [], ◌∷◌, ◌++◌, Bool, true, false, ◌⊎◌, inl, inr, Text,
  text, Outcome, ok, err, panic, Exec, pure, fail, or_fail, map_err, ◌>>=◌, ◌>>◌, if◌then◌else◌,
}
use csi_hostpath.Cluster.{Cluster, get_node_addr}

-- The code of a gRPC status; an error that is no status counts as `unknown`. The texts of the
-- controller's errors are left out.
pub data Code : Type 0 where
  invalid_argument : Code
  internal : Code
  unimplemented : Code
  unknown : Code

abbrev pub Session : Type 0 → Type 0
Session S = S × ℕ

abbrev pub or_internal : {S A : Type 0} → Exec S Text A → Exec S Code A
or_internal m = map_err (λ _. internal) m

-- `return err` where there is one
abbrev pub check : {S : Type 0} → Option Code → Exec S Code (Unit {0})
check none = pure tt
check (some c) = fail c

abbrev pub returned : {A : Type 0} → Text ⊎ A → Outcome Text A
returned (inl e) = err e
returned (inr a) = ok a

module _ {S A : Type 0} where
  -- A call over a connection
  abbrev pub call : (S → (Text ⊎ A) × S) → Exec (Session S) Text A
  call m s = let (r, nodes) = m s.0 in (returned r, (nodes, s.1))

  -- `defer conn.Close()` before the rest of a handler
  abbrev pub closing : Exec (Session S) Code A → Exec (Session S) Code A
  closing m s = let (r, s') = m s in (r, (s'.0, s'.1 - 1))

-- `conn.Close()`
abbrev pub close : {S : Type 0} → Exec (Session S) Code (Unit {0})
close s = (ok tt, (s.0, s.1 - 1))

-- A connection that is made counts as open until it is closed.
abbrev pub dialled : {S : Type 0} → Text → Option Text → Exec (Session S) Text Text
dialled addr (some e) s = (err e, s)
dialled addr none s = (ok addr, (s.0, s.1 + 1))

module _ (K : Cluster) {S : Type 0} where
  -- `client.NewGrpcConnection`: what stands for the connection is the address of its node.
  unfoldable pub new_grpc_connection : Text → Exec (Session S) Text Text
  new_grpc_connection addr = dialled addr (K.dial addr)

  -- `getNodeConn`
  unfoldable pub get_node_conn : Text → Exec (Session S) Text Text
  unfolding get_node_addr new_grpc_connection
  get_node_conn node_selected = do
    node ← or_fail (K.node node_selected) (text "node not found")
    addr ← or_fail (get_node_addr K node) (text "Node IP unknown")
    new_grpc_connection addr
