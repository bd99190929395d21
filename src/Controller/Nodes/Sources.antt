-- ===== src/Controller/Nodes/Sources.antt =====
-- `CreateVolume` from a snapshot and from another volume, over the connection that calls the services
-- of the nodes.
use csi_hostpath.Base.{
  ◌≡◌, ◌+◌, refl, sym, ap, subst, ◌∙◌, false, none, some, Text, ok, ◌⊎◌, inl, inr, ◌==◌, nat_eq,
  list_eq, eq_refl, to_lower,
}
use csi_hostpath.Base.Int.{to_uint64}
use csi_hostpath.FileSystem.{Files, quiet, IsName}
use csi_hostpath.Volume.{LogicalVolume}
use csi_hostpath.Volume.Codec.{Codec, IsLawful}
use csi_hostpath.Client.{VolOptions, no_options}
use csi_hostpath.Client.Remote
use csi_hostpath.Client.Remote.{Nodes, worker_connection}
use csi_hostpath.Client.Listing.{view}
use csi_hostpath.Client.Nodes.{get_volume-view}
use csi_hostpath.Client.Tidy.{IsTidy}
use csi_hostpath.Client.Requests.{vol_of, change, restored-IsTidy, cloned-IsTidy}
use csi_hostpath.Cluster.{Cluster}
use csi_hostpath.Controller.{Session}
use csi_hostpath.Controller.Capacity.{get_rounded_capacity}
use csi_hostpath.Controller.Requests.{
  CreateVolumeRequest, from_snapshot, from_volume, new_volume_params,
}
use csi_hostpath.Controller.Volumes.{create_volume, create_options, create_volume_response}
use csi_hostpath.Controller.Nodes.{
  IsServed, changed, on_node-run, ensure_volume-run, create_volume-run,
}

abbrev name_of : CreateVolumeRequest → Text
name_of req = to_lower req.name

abbrev group_of : CreateVolumeRequest → Text
group_of req = (new_volume_params req.parameters).host_path

-- The source that a request names
abbrev pub HasSource : CreateVolumeRequest → Text → Type 0
HasSource req src =
    (req.volume_content_source ≡ some (from_snapshot src))
    ⊎ (req.volume_content_source ≡ some (from_volume src))

-- The options of a request for a copy
abbrev options : CreateVolumeRequest → VolOptions
options req = record no_options {
  name = name_of req;
  volume_group = group_of req;
  size = to_uint64 (get_rounded_capacity req.required_bytes);
}

create_options-snapshot :
    (req : CreateVolumeRequest) (src : Text)
    → req.volume_content_source ≡ some (from_snapshot src)
    → create_options req ≡ record (options req) { snapshot_name = src }
unfolding create_options
create_options-snapshot req src e = rw e refl

create_options-clone :
    (req : CreateVolumeRequest) (src : Text)
    → req.volume_content_source ≡ some (from_volume src)
    → create_options req ≡ record (options req) { clone_name = src }
unfolding create_options
create_options-clone req src e = rw e refl

create_options-names :
    (req : CreateVolumeRequest) (src : Text)
    → HasSource req src
    → ((create_options req).volume_group ≡ group_of req) × ((create_options req).name ≡ name_of req)
create_options-names req src (inl e) =
    let o = create_options-snapshot req src e in
    (ap (λ (x : VolOptions). x.volume_group) o, ap (λ (x : VolOptions). x.name) o)
create_options-names req src (inr e) =
    let o = create_options-clone req src e in
    (ap (λ (x : VolOptions). x.volume_group) o, ap (λ (x : VolOptions). x.name) o)

module _ (J : Codec) (L : IsLawful J) (req : CreateVolumeRequest) (src : Text) (d : Files)
    (v : LogicalVolume) (one : IsName (group_of req)) (plain : IsName (name_of req))
    (t : IsTidy J (group_of req) d) (absent : view J (group_of req) d (name_of req) ≡ none)
    (there : view J (group_of req) d src ≡ some v)
    (enc : J.IsEncodable (vol_of (record v { name = name_of req }))) where
  -- What the call of the node leaves, for either source
  abbrev Copied : VolOptions → Type 0
  Copied o =
      (d' : Files) × (Remote.create_volume J o (quiet d) ≡ (ok (name_of req), quiet d'))
      × IsTidy J (group_of req) d'
      × (view J (group_of req) d'
          ≡ change (name_of req) (some (record v { name = name_of req })) (view J (group_of req) d))

  create_options-Copied : HasSource req src → Copied (create_options req)
  create_options-Copied (inl e) =
      subst Copied (sym (create_options-snapshot req src e))
        (restored-IsTidy J L (group_of req) one (name_of req) src _ d v t plain absent there enc)
  create_options-Copied (inr e) =
      subst Copied (sym (create_options-clone req src e))
        (cloned-IsTidy J L (group_of req) one (name_of req) src _ d v t plain absent there enc)

module _ (K : Cluster) (J : Codec) (L : IsLawful J) (req : CreateVolumeRequest) (src : Text) where
  -- `CreateVolume` from a snapshot or another volume, for a valid request whose node can be reached,
  -- where no call on the node fails, the group is tidy, has the source and does not have the
  -- volume, the names of both are plain and the new record can be encoded: it returns the response;
  -- the group has the source under the name of the volume, with the size of the source, and is
  -- tidy again, and all other volumes of the group, all other nodes and the number of open
  -- connections are as before.
  pub create_volume_copied :
      (p : IsServed K Nodes req) (s : Session Nodes) (d : Files) (v : LogicalVolume)
      → HasSource req src
      → s.0 p.addr ≡ quiet d
      → IsName (group_of req)
      → IsName (name_of req)
      → IsTidy J (group_of req) d
      → view J (group_of req) d (name_of req) ≡ none
      → view J (group_of req) d src ≡ some v
      → J.IsEncodable (vol_of (record v { name = name_of req }))
      → (d' : Files) × (nodes : Nodes) × (create_volume K (worker_connection J) req s
          ≡ (ok (create_volume_response req p.node_name), (nodes, s.1)))
        × (nodes p.addr ≡ quiet d')
        × ((a : Text) → (p.addr == a) ≡ false → nodes a ≡ s.0 a)
        × IsTidy J (group_of req) d'
        × (view J (group_of req) d'
            ≡ change
                (name_of req)
                (some (record v { name = name_of req }))
                (view J (group_of req) d))
  create_volume_copied p s d v source at one plain t absent there enc =
      let (d', run, tidy, views) =
        create_options-Copied J L req src d v one plain t absent there enc source in
      let looked = changed p.addr (quiet d) s.0 in
      let nodes = changed p.addr (quiet d') looked in
      let (group, name) = create_options-names req src source in
      let found =
        on_node-run p.addr (Remote.get_volume J (group_of req) (name_of req)) s.0 (quiet d)
          (quiet d) none at
          (get_volume-view J (group_of req) (name_of req) d t.group
            ∙ ap (λ o. (ok o, quiet d)) absent) in
      let made =
        on_node-run p.addr (Remote.create_volume J (create_options req)) looked (quiet d) (quiet d')
          (name_of req) (rw (eq_refl p.addr) refl) run in
      let ensured =
        ensure_volume-run (worker_connection J) p.addr (create_options req) (s.0, s.1 + 1) looked
          nodes (name_of req) (rw (group, name) found) made in
      (
        d',
        nodes,
        create_volume-run (worker_connection J) K req p s nodes ensured,
        rw (eq_refl p.addr) refl,
        λ a other. rw other refl,
        tidy,
        views,
      )
