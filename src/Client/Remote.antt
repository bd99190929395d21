-- ===== src/Client/Remote.antt =====
-- `workerConnection`: each call is a remote call of the node's service. A remote call may fail on
-- its way to the node, and its reply may get lost when the node has done its work: the node's
-- schedule of faults says so, with an entry before and one after the handler.
use csi_hostpath.Base.{
  ℕ, Option, Text, Outcome, ok, err, panic, ◌⊎◌, inl, inr, text, pure, fail, ◌>>=◌, ◌>>◌, ◌==◌,
  list_eq, nat_eq, if◌then◌else◌,
}
use csi_hostpath.Base.Int.{ℤ}
use csi_hostpath.FileSystem.{World, Os, system_call}
use csi_hostpath.Volume.{LogicalVolume}
use csi_hostpath.Volume.Codec.{Codec}
use csi_hostpath.Service
use csi_hostpath.Client.{VolOptions, Connection, find_volume}

abbrev pub transport : Os (Unit {0})
transport = system_call (λ f. fail f.reason) (pure tt)

abbrev pub remote : {A : Type 0} → Os A → Os A
remote handler = do transport; r ← handler; transport; pure r

-- The nodes by their addresses
abbrev pub Nodes : Type 0
Nodes = Text → World

-- A service that panics ends without a reply, and the caller is told that it is not available.
abbrev reply : {A : Type 0} → Outcome Text A → Text ⊎ A
reply (ok a) = inr a
reply (err e) = inl e
reply panic = inl (text "Unavailable")

abbrev pub on_node : {A : Type 0} → Text → Os A → Nodes → (Text ⊎ A) × Nodes
on_node addr m s = let (r, w) = m (s addr) in (reply r, λ a. if addr == a then w else s a)

module _ (J : Codec) where
  unfoldable pub get_volume : Text → Text → Os (Option LogicalVolume)
  unfolding find_volume
  get_volume vol_group volume_id = do
    rsp ← remote (Service.list_vol J (record { volume_group = vol_group }))
    pure (find_volume volume_id rsp.volumes)

  unfoldable pub create_volume : VolOptions → Os Text
  create_volume opt = do
    rsp ← remote (
        Service.create_vol J (record {
          volume_group = opt.volume_group;
          name = opt.name;
          size = opt.size;
          clone_name = opt.clone_name;
          tags = opt.tags;
          snapshot_name = opt.snapshot_name;
        }))
    pure rsp.command_output

  unfoldable pub delete_volume : Text → Text → Os (Unit {0})
  delete_volume vol_group volume_id = do
    remote (Service.remove_vol J (record { volume_group = vol_group; name = volume_id }))
    pure tt

  unfoldable pub create_snapshot : Text → Text → Text → Os ℤ
  create_snapshot vg_name snapshot_name src_volume_name = do
    rsp ← remote (
        Service.create_snapshot J (record {
          vg_name = vg_name;
          snapshot_name = snapshot_name;
          src_volume_name = src_volume_name;
        }))
    pure rsp.size_bytes

  unfoldable pub delete_snapshot : Text → Text → Os (Unit {0})
  delete_snapshot vol_group snap_volume_id = do
    remote
        (Service.remove_snapshot J (record { vg_name = vol_group; snapshot_name = snap_volume_id }))
    pure tt

  unfoldable pub expand_volume : Text → Text → ℕ → Os (Unit {0})
  expand_volume vol_group volume_id size = do
    remote
        (Service.expand_vol J (record { volume_group = vol_group; name = volume_id; size = size }))
    pure tt

  abbrev pub worker_connection : Connection
  worker_connection = record {
    State = Nodes;
    get_volume = λ addr vg id. on_node addr (get_volume vg id);
    create_volume = λ addr opt. on_node addr (create_volume opt);
    delete_volume = λ addr vg id. on_node addr (delete_volume vg id);
    create_snapshot = λ addr vg snap src. on_node addr (create_snapshot vg snap src);
    delete_snapshot = λ addr vg snap. on_node addr (delete_snapshot vg snap);
    expand_volume = λ addr vg id size. on_node addr (expand_volume vg id size);
  }
