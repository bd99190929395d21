-- ===== src/Agent/Mounts.antt =====
-- What publishing and unpublishing a volume does to the mounts of a node.
use csi_hostpath.Base.{
  ◌≡◌, refl, sym, ap, ◌∙◌, subst, Bool, true, false, not, Option, none, some, List, [], ◌∷◌, ◌⊎◌,
  inl, inr, ◌++◌, ◌||◌, append_assoc, Text, text, Outcome, ok, err, panic, Exec, pure, guard,
  map_err, to_error, ◌>>=◌, ◌>>◌, ◌==◌, list_eq, nat_eq, if◌then◌else◌, Bool-cases, eq_refl,
}
use csi_hostpath.Controller.{
  Code, invalid_argument, internal, unknown, or_internal, check, returned,
}
use csi_hostpath.Controller.Requests.{AccessType, no_access_type, block, mount, at}
use csi_hostpath.Controller.Returns.{Fixed, Fixed-check, Fixed-guard, bind_ok, returned_same, pair}
use csi_hostpath.Cluster.{vg_name_key}
use csi_hostpath.HostPath.{get_vol_path, root}
use csi_hostpath.Agent.{
  Mounter, NodePublishVolumeRequest, validate_node_publish_req, validate_node_unpublish_req,
  mount_options, mount_type, source_path, run, query, mount_mount_point_volume, make_target,
  publish_by, access_type_of, node_publish_volume, node_unpublish_volume,
}

pub record Mount : Type 0 where
  pub source : Text
  pub fs_type : Text
  pub options : List Text

-- The mounts at each path, the last one first
abbrev pub Mounts : Type 0
Mounts = Text → List Mount

-- What is relied on of k8s.io/mount-utils. `IsLikelyNotMountPoint` compares devices: `is_seen` says
-- whether it takes a path for a mount point. A bind mount within one file system is not seen. A
-- cleanup that returns no error has left no mount.
pub record IsMountTable (M : Mounter) : Type 0 where
  pub mounts : M.State → Mounts
  pub is_seen : M.State → Text → Bool
  pub seen :
      (t : Text) (s : M.State) (b : Bool)
      → M.is_likely_not_mount_point t s ≡ inr b
      → b ≡ not (is_seen s t)
  pub made :
      (t : Text) (s s' : M.State)
      → M.mkdir_all t s ≡ (inr tt, s')
      → ((u : Text) → mounts s' u ≡ mounts s u) × (is_seen s' t ≡ is_seen s t)
  pub mounted :
      (source t fs_type : Text) (options : List Text) (s s' : M.State)
      → M.mount source t fs_type options s ≡ (inr tt, s')
      → (u : Text)
      → mounts s' u ≡ (
          if t == u
          then record { source = source; fs_type = fs_type; options = options } ∷ mounts s u
          else mounts s u)
  pub cleaned :
      (t : Text) (s s' : M.State)
      → M.cleanup_mount_point t s ≡ (inr tt, s')
      → (u : Text) → mounts s' u ≡ (if t == u then [] else mounts s u)

-- The mount that a request asks for: of the directory of the volume, of the file system that is asked
-- for or else ext4, and a bind mount beside the flags of the request, read-only where it says so
unfoldable pub wanted : NodePublishVolumeRequest → Text → List Text → Mount
unfolding text
wanted req fs_type flags = record {
  source =
      text "/opt/csi-hostpath/"
      ++ (at req.volume_context (text "csi.io/volume-group-name")
          ++ (text "/" ++ (req.volume_id ++ text "/mountpoint")));
  fs_type = if fs_type == [] then text "ext4" else fs_type;
  options = flags ++ (if req.readonly then text "bind" ∷ text "ro" ∷ [] else text "bind" ∷ []);
}

-- A volume that is not to be mounted has none.
unfoldable pub mount_by : NodePublishVolumeRequest → AccessType → Option Mount
unfolding wanted
mount_by req no_access_type = none
mount_by req block = none
mount_by req (mount fs_type flags) = some (wanted req fs_type flags)

unfoldable pub mount_of : NodePublishVolumeRequest → Option Mount
unfolding mount_by
mount_of req = mount_by req (access_type_of req.volume_capability)

-- What publishing means for the table: one more mount at the target, unless a mount is seen there
unfoldable pub publish : Bool → Text → Option Mount → Mounts → Mounts
publish is_seen t none table = table
publish true t (some m) table = table
publish false t (some m) table = λ u. if t == u then m ∷ table u else table u

-- What unpublishing means: no mount at the target
unfoldable pub unpublish : Text → Mounts → Mounts
unpublish t table = λ u. if t == u then [] else table u

publish-table :
    (seen : Bool) (t : Text) (o : Option Mount) (a b : Mounts) (u : Text)
    → a u ≡ b u
    → publish seen t o a u ≡ publish seen t o b u
unfolding publish
publish-table seen t none a b u e = e
publish-table true t (some m) a b u e = e
publish-table false t (some m) a b u e = ap (λ l. if t == u then m ∷ l else l) e

unpublish-publish :
    (seen : Bool) (t : Text) (o : Option Mount) (a b : Mounts) (u : Text)
    → b u ≡ publish seen t o a u
    → unpublish t b u ≡ unpublish t a u
unfolding publish unpublish
unpublish-publish seen t none a b u e = ap (λ l. if t == u then [] else l) e
unpublish-publish true t (some m) a b u e = ap (λ l. if t == u then [] else l) e
unpublish-publish false t (some m) a b u e = elim (Bool-cases (t == u)) [
  | inl same ↦ rw same
  | inr differ ↦ rw differ (e ∙ rw differ)
]

module _ {S E A B : Type 0} where
  Fixed-then_ok :
      (m : Exec S E A) (k : Exec S E B) (s s' : S) (b : B)
      → Fixed m
      → (m >> k) s ≡ (ok b, s')
      → k s ≡ (ok b, s')
  Fixed-then_ok m k s s' b x h =
      let (a, t, run, last) = bind_ok m (λ _. k) s s' b h in
      subst (λ w. k w ≡ (ok b, s')) (sym (ap (λ y. y.1) (sym (x.runs s) ∙ run))) last

module _ {S E F A : Type 0} where
  map_err_ok :
      (h : E → F) (m : Exec S E A) (s s' : S) (a : A)
      → map_err h m s ≡ (ok a, s')
      → m s ≡ (ok a, s')
  map_err_ok h m s s' a e = go (m s).0 (m s).1 refl e
    where
      go :
          (r : Outcome E A) (t : S)
          → m s ≡ (r, t)
          → Path (Outcome F A × S) (to_error h r, t) (ok a, s')
          → m s ≡ (ok a, s')
      go (ok b) t q e = q ∙ rw (ap (λ y. y.1) e, returned_same (ap (λ y. y.0) e))
      go (err x) t q e = cc
      go panic t q e = cc

module _ {S A : Type 0} where
  run_ok : (m : S → (Text ⊎ A) × S) (s s' : S) (a : A) → run m s ≡ (ok a, s') → m s ≡ (inr a, s')
  run_ok m s s' a e = go (m s).0 (m s).1 refl e
    where
      go :
          (r : Text ⊎ A) (t : S)
          → m s ≡ (r, t)
          → Path (Outcome Text A × S) (returned r, t) (ok a, s')
          → m s ≡ (inr a, s')
      go (inr b) t q e = q ∙ rw (ap (λ y. y.1) e, returned_same (ap (λ y. y.0) e))
      go (inl x) t q e = cc

  query_ok :
      (q : S → Text ⊎ A) (s s' : S) (a : A) → query q s ≡ (ok a, s') → (q s ≡ inr a) × (s ≡ s')
  query_ok q s s' a e = go (q s) refl e
    where
      go :
          (r : Text ⊎ A)
          → q s ≡ r
          → Path (Outcome Text A × S) (returned r, s) (ok a, s')
          → (q s ≡ inr a) × (s ≡ s')
      go (inr b) x e = (x ∙ ap inr (returned_same (ap (λ y. y.0) e)), ap (λ y. y.1) e)
      go (inl y) x e = cc

mount_options_lem :
    (readonly : Bool) (flags : List Text)
    → mount_options readonly flags
      ≡ flags ++ (if readonly then text "bind" ∷ text "ro" ∷ [] else text "bind" ∷ [])
unfolding mount_options text
mount_options_lem true flags = append_assoc flags (text "bind" ∷ []) (text "ro" ∷ [])
mount_options_lem false flags = refl

source_path_lem :
    (req : NodePublishVolumeRequest)
    → (source_path req == []) ≡ false
    → source_path req
      ≡ text "/opt/csi-hostpath/"
        ++ (at req.volume_context (text "csi.io/volume-group-name")
            ++ (text "/" ++ (req.volume_id ++ text "/mountpoint")))
unfolding source_path get_vol_path root text
source_path_lem req full =
    let vg = at req.volume_context vg_name_key in
    elim (Bool-cases (vg == [] || req.volume_id == [])) [
      | inl empty ↦
          let gone : source_path req ≡ [] = rw empty refl in
          absurd (cc (sym full ∙ ap (λ t. t == []) gone ∙ eq_refl {A = Text} []))
      | inr there ↦ rw there refl
    ]

as_wanted :
    (req : NodePublishVolumeRequest) (fs_type : Text) (flags : List Text)
    → (source_path req == []) ≡ false
    → Path Mount
        (record {
          source = source_path req;
          fs_type = mount_type fs_type;
          options = mount_options req.readonly flags;
        })
        (wanted req fs_type flags)
unfolding mount_type wanted text
as_wanted req fs_type flags full =
    ap
      (λ (x : Text × List Text). record {
        source = x.0;
        fs_type = mount_type fs_type;
        options = x.1;
      })
      (pair (source_path_lem req full) (mount_options_lem req.readonly flags))

module _ (M : Mounter) (T : IsMountTable M) (req : NodePublishVolumeRequest) where
  -- A mount that returns has had a source.
  has_source :
      (fs_type : Text) (flags : List Text) (s s' : M.State)
      → mount_mount_point_volume M req fs_type flags s ≡ (ok tt, s')
      → (source_path req == []) ≡ false
  unfolding mount_mount_point_volume
  has_source fs_type flags s s' h = elim (Bool-cases (source_path req == [])) [
    | inl empty ↦ absurd (refused (sym (rw empty refl) ∙ h))
    | inr full ↦ full
  ]
    where
      refused :
          Path
            (Outcome Text (Unit {0}) × M.State)
            (err (text "mountMountPointVolume: sourcePath is empty"), s)
            (ok tt, s')
          → ⊥
      refused e = cc

  mount_mount_point_volume-publish :
      (fs_type : Text) (flags : List Text) (s s' : M.State)
      → mount_mount_point_volume M req fs_type flags s ≡ (ok tt, s')
      → (u : Text)
      → T.mounts s' u
        ≡ publish
            (T.is_seen s req.target_path)
            req.target_path
            (mount_by req (mount fs_type flags))
            (T.mounts s)
            u
  unfolding mount_mount_point_volume publish mount_by
  mount_mount_point_volume-publish fs_type flags s s' h u =
      let asked =
        Fixed-then_ok
          (guard (not (source_path req == [])) (text "mountMountPointVolume: sourcePath is empty"))
          by_answer s s' tt (Fixed-guard _ _) h in
      let (b, t, probe, last) =
        bind_ok (query (M.is_likely_not_mount_point req.target_path)) mount_if s s' tt asked in
      let (answer, same) = query_ok (M.is_likely_not_mount_point req.target_path) s t b probe in
      go b (T.is_seen s req.target_path) (T.seen req.target_path s b answer)
        (subst (λ w. mount_if b w ≡ (ok tt, s')) (sym same) last)
    where
      full : (source_path req == []) ≡ false
      full = has_source fs_type flags s s' h

      mount_now : M.State → (Text ⊎ Unit {0}) × M.State
      mount_now =
          M.mount (source_path req) req.target_path (mount_type fs_type)
            (mount_options req.readonly flags)

      mount_if : Bool → Exec M.State Text (Unit {0})
      mount_if notmounted = if notmounted then run mount_now else pure tt

      by_answer : Exec M.State Text (Unit {0})
      by_answer = query (M.is_likely_not_mount_point req.target_path) >>= mount_if

      go :
          (b seen : Bool)
          → b ≡ not seen
          → mount_if b s ≡ (ok tt, s')
          → T.mounts s' u
            ≡ publish seen req.target_path (mount_by req (mount fs_type flags)) (T.mounts s) u
      go true false e h =
          T.mounted (source_path req) req.target_path (mount_type fs_type)
            (mount_options req.readonly flags) s s' (run_ok mount_now s s' tt h) u
          ∙ ap (λ m. if req.target_path == u then m ∷ T.mounts s u else T.mounts s u)
              (as_wanted req fs_type flags full)
      go false true e h = ap (λ w. T.mounts w u) (sym (ap (λ y. y.1) h))
      go true true e h = cc
      go false false e h = cc

  make_target-mounts :
      (s s' : M.State)
      → make_target M req.target_path s ≡ (ok tt, s')
      → ((u : Text) → T.mounts s' u ≡ T.mounts s u)
        × (T.is_seen s' req.target_path ≡ T.is_seen s req.target_path)
  unfolding make_target
  make_target-mounts s s' h = go (M.is_missing req.target_path s) h
    where
      go :
          (b : Bool)
          → (if b
              then map_err (λ _. unknown) (run (M.mkdir_all req.target_path)) s
              else (pure tt s))
            ≡ (ok tt, s')
          → ((u : Text) → T.mounts s' u ≡ T.mounts s u)
            × (T.is_seen s' req.target_path ≡ T.is_seen s req.target_path)
      go true h = T.made req.target_path s s' (
          run_ok (M.mkdir_all req.target_path) s s' tt
            (map_err_ok (λ _. unknown) (run (M.mkdir_all req.target_path)) s s' tt h))
      go false h =
          let same : s' ≡ s = sym (ap (λ y. y.1) h) in
          (λ u. ap (λ w. T.mounts w u) same, ap (λ w. T.is_seen w req.target_path) same)

  publish_by-publish :
      (a : AccessType) (s s' : M.State)
      → publish_by M req a s ≡ (ok tt, s')
      → (u : Text)
      → T.mounts s' u
        ≡ publish (T.is_seen s req.target_path) req.target_path (mount_by req a) (T.mounts s) u
  unfolding publish_by publish mount_by
  publish_by-publish block s s' h u = ap (λ w. T.mounts w u) (sym (ap (λ y. y.1) h))
  publish_by-publish no_access_type s s' h u = ap (λ w. T.mounts w u) (sym (ap (λ y. y.1) h))
  publish_by-publish (mount fs_type flags) s s' h u =
      let (v, t, made, last) = bind_ok (make_target M req.target_path) _ s s' tt h in
      let (same, seen) = make_target-mounts s t made in
      let inner = mount_mount_point_volume M req fs_type flags in
      let done =
        mount_mount_point_volume-publish fs_type flags t s'
          (map_err_ok (λ _. internal) inner t s' tt last) u in
      done
      ∙ ap (λ b. publish b req.target_path (mount_by req (mount fs_type flags)) (T.mounts t) u) seen
      ∙ publish-table (T.is_seen s req.target_path) req.target_path
          (mount_by req (mount fs_type flags)) (T.mounts t) (T.mounts s) u (same u)

  -- Where `NodePublishVolume` returns without an error, the mounts of the node are those that
  -- `publish` says: one more at the target path, with the source, type and options of the
  -- request, unless a mount is seen there or the volume is not to be mounted.
  pub node_publish_volume-publish :
      (s s' : M.State)
      → node_publish_volume M req s ≡ (ok tt, s')
      → (u : Text)
      → T.mounts s' u
        ≡ publish (T.is_seen s req.target_path) req.target_path (mount_of req) (T.mounts s) u
  unfolding node_publish_volume mount_of
  node_publish_volume-publish s s' h =
      publish_by-publish (access_type_of req.volume_capability) s s' (
        Fixed-then_ok (guard (not (req.target_path == [])) invalid_argument) by s s' tt
          (Fixed-guard _ _)
          (Fixed-then_ok (guard (not (req.volume_id == [])) invalid_argument) rest s s' tt
            (Fixed-guard _ _)
            (Fixed-then_ok (check (validate_node_publish_req req)) all s s' tt (Fixed-check _) h)))
    where
      by : Exec M.State Code (Unit {0})
      by = publish_by M req (access_type_of req.volume_capability)

      rest : Exec M.State Code (Unit {0})
      rest = guard (not (req.target_path == [])) invalid_argument >> by

      all : Exec M.State Code (Unit {0})
      all = guard (not (req.volume_id == [])) invalid_argument >> rest

module _ (M : Mounter) (T : IsMountTable M) where
  -- Where `NodeUnpublishVolume` returns without an error, nothing is mounted at the target path,
  -- and the mounts at all other paths are as before.
  node_unpublish_volume-unpublish :
      (volume_id target_path : Text) (s s' : M.State)
      → node_unpublish_volume M volume_id target_path s ≡ (ok tt, s')
      → (u : Text) → T.mounts s' u ≡ unpublish target_path (T.mounts s) u
  unfolding node_unpublish_volume unpublish
  node_unpublish_volume-unpublish volume_id target_path s s' h =
      let cleanup = run (M.cleanup_mount_point target_path) in
      let last =
        Fixed-then_ok (check (validate_node_unpublish_req volume_id target_path))
          (or_internal cleanup) s s' tt (Fixed-check _) h in
      T.cleaned target_path s s' (
        run_ok (M.cleanup_mount_point target_path) s s' tt
          (map_err_ok (λ _. internal) cleanup s s' tt last))

  -- Publishing a volume and unpublishing it again leaves nothing mounted at the target path, and
  -- the mounts at all other paths as they were.
  pub node_unpublish_volume-node_publish_volume :
      (req : NodePublishVolumeRequest) (s s1 s2 : M.State)
      → node_publish_volume M req s ≡ (ok tt, s1)
      → node_unpublish_volume M req.volume_id req.target_path s1 ≡ (ok tt, s2)
      → (u : Text) → T.mounts s2 u ≡ unpublish req.target_path (T.mounts s) u
  node_unpublish_volume-node_publish_volume req s s1 s2 p q u =
      node_unpublish_volume-unpublish req.volume_id req.target_path s1 s2 q u
      ∙ unpublish-publish (T.is_seen s req.target_path) req.target_path (mount_of req) (T.mounts s)
          (T.mounts s1) u (node_publish_volume-publish M T req s s1 p u)

  -- Where the mount that a request has made at an empty target path is not seen, as that of a
  -- directory in the same file system, repeating the request mounts the volume a second time.
  pub node_publish_volume_twice :
      (req : NodePublishVolumeRequest) (m : Mount) (s s1 s2 : M.State)
      → mount_of req ≡ some m
      → T.mounts s req.target_path ≡ []
      → T.is_seen s req.target_path ≡ false
      → T.is_seen s1 req.target_path ≡ false
      → node_publish_volume M req s ≡ (ok tt, s1)
      → node_publish_volume M req s1 ≡ (ok tt, s2)
      → T.mounts s2 req.target_path ≡ m ∷ m ∷ []
  unfolding publish
  node_publish_volume_twice req m s s1 s2 e empty unseen unseen1 p q =
      let t = req.target_path in
      let second = node_publish_volume-publish M T req s1 s2 q t in
      let first = node_publish_volume-publish M T req s s1 p t in
      second
      ∙ rw (unseen1, e, eq_refl t)
          (ap (λ l. m ∷ l) (first ∙ rw (unseen, e, eq_refl t) (ap (λ l. m ∷ l) empty)))
