-- ===== src/Agent/Info.antt =====
-- pkg/driver/agent.go: `NodeGetInfo`. The labels of the node and the variable
-- ALLOWED_TOPOLOGIES are parameters.
use csi_hostpath.Base.{
  ℕ, ◌≡◌, refl, subst, ap, ◌∙◌, Bool, true, false, ◌&&◌, ◌||◌, not, Option, none, some, List, [],
  ◌∷◌, Text, Exec, ok, pure, or_fail, ◌>>=◌, ◌==◌, list_eq, nat_eq, if◌then◌else◌, Bool-cases,
  eq-eq, inl, inr,
}
use csi_hostpath.Base.Dict.{Dict, lookup, insert, lookup-insert, lookup-insert_self}
use csi_hostpath.Cluster.{kubernetes_node_identity_key}
use csi_hostpath.Controller.{Code, unknown}

-- `strings.Split(s, sep)` for a `sep` of one character
abbrev begin_with : ℕ → List Text → List Text
begin_with x [] = (x ∷ []) ∷ []
begin_with x (w ∷ ws) = (x ∷ w) ∷ ws

unfoldable pub split : ℕ → Text → List Text
split sep [] = [] ∷ []
split sep (x ∷ xs) = let rest = split sep xs in if x == sep then [] ∷ rest else begin_with x rest

abbrev pub add_label : Text → Option Text → Dict Text Text → Dict Text Text
unfolding insert
add_label key none topology = topology
add_label key (some v) topology = insert key v topology

-- The loop over the allowed keys
unfoldable pub add_labels : Dict Text Text → List Text → Dict Text Text → Dict Text Text
unfolding add_label lookup
add_labels labels [] topology = topology
add_labels labels (key ∷ keys) topology =
    add_labels labels keys
      (if key == [] then topology else add_label key (lookup key labels) topology)

pub record NodeGetInfoResponse : Type 0 where
  pub node_id : Text
  pub topology : Dict Text Text

abbrev pub comma : ℕ
comma = 44

-- `labels` is `none` where the node is not found.
unfoldable pub node_get_info :
    {S : Type 0} → Text → Option (Dict Text Text) → Text → Exec S Code NodeGetInfoResponse
unfolding add_labels split
node_get_info node_id node_labels allowed_topologies = do
  labels ← or_fail node_labels unknown
  pure (record {
    node_id = node_id;
    topology =
        add_labels labels (split comma allowed_topologies)
          ((kubernetes_node_identity_key, node_id) ∷ []);
  })

unfoldable pub has_key : Text → List Text → Bool
has_key k [] = false
has_key k (j ∷ js) = j == k || has_key k js

abbrev pub or_else : Option Text → Option Text → Option Text
or_else none o = o
or_else (some v) o = some v

-- The label of a key, where the key is allowed and is not empty
abbrev pub allowed_label : Dict Text Text → List Text → Text → Option Text
unfolding has_key lookup
allowed_label labels keys k = if has_key k keys && not (k == []) then lookup k labels else none

-- One allowed key more, by whether it is the key asked for
label_step :
    (same full : Bool) (rest : Bool) (label before : Option Text)
    → or_else
        (if rest && full then label else none)
        (if same && full then or_else label before else before)
      ≡ or_else (if (same || rest) && full then label else none) before
label_step true true true none before = refl
label_step true true true (some v) before = refl
label_step true true false none before = refl
label_step true true false (some v) before = refl
label_step true false true label before = refl
label_step true false false label before = refl
label_step false full rest label before = refl

-- What is added under a key, seen from another
added :
    (labels topology : Dict Text Text) (key k : Text)
    → lookup k (if key == [] then topology else add_label key (lookup key labels) topology) ≡ (
        if key == k && not (k == [])
        then or_else (lookup k labels) (lookup k topology)
        else lookup k topology)
unfolding add_label
added labels topology key k = elim (Bool-cases (key == k)) [
  | inl same ↦ rw same (
      subst
        (λ x.
          lookup x (if key == [] then topology else add_label key (lookup key labels) topology) ≡ (
            if not (x == [])
            then or_else (lookup x labels) (lookup x topology)
            else lookup x topology))
        (eq-eq key k same) (own (key == []) (lookup key labels)))
  | inr differ ↦ rw differ (other (key == []) (lookup key labels) differ)
]
  where
    own :
        (b : Bool) (o : Option Text)
        → lookup key (if b then topology else add_label key o topology)
          ≡ (if not b then or_else o (lookup key topology) else lookup key topology)
    own true o = refl
    own false none = refl
    own false (some v) = lookup-insert_self key v topology

    other :
        (b : Bool) (o : Option Text)
        → (key == k) ≡ false
        → lookup k (if b then topology else add_label key o topology) ≡ lookup k topology
    other true o d = refl
    other false none d = refl
    other false (some v) d = lookup-insert key k v topology ∙ rw d

lookup-add_labels :
    (labels : Dict Text Text) (keys : List Text) (topology : Dict Text Text) (k : Text)
    → lookup k (add_labels labels keys topology)
      ≡ or_else (allowed_label labels keys k) (lookup k topology)
unfolding add_labels allowed_label has_key
lookup-add_labels labels [] topology k = refl
lookup-add_labels labels (key ∷ keys) topology k =
    lookup-add_labels labels keys
      (if key == [] then topology else add_label key (lookup key labels) topology) k
    ∙ ap (or_else (allowed_label labels keys k)) (added labels topology key k)
    ∙ label_step (key == k) (not (k == [])) (has_key k keys) (lookup k labels) (lookup k topology)

-- The topology that `NodeGetInfo` reports has, for each key, the label of the node if the key is one of
-- those in ALLOWED_TOPOLOGIES and the node has it; else the node's identifier for
-- kubernetes.io/hostname, and nothing for other keys.
pub lookup-node_get_info :
    (node_id : Text) (labels : Dict Text Text) (allowed : Text) (k : Text) {S : Type 0} (s : S)
    → (rsp : NodeGetInfoResponse) × (node_get_info node_id (some labels) allowed s ≡ (ok rsp, s))
      × (lookup k rsp.topology
          ≡ or_else
              (allowed_label labels (split comma allowed) k)
              (if kubernetes_node_identity_key == k then some node_id else none))
unfolding node_get_info lookup
lookup-node_get_info node_id labels allowed k s = (
  _,
  refl,
  lookup-add_labels labels (split comma allowed) ((kubernetes_node_identity_key, node_id) ∷ []) k,
)
