-- ===== src/HostPath/Walk.antt =====
-- What `filepath.Walk` visits, and what one visit copies, in a world where no system call fails.
use csi_hostpath.Base.{
  ◌≡◌, ◌≢◌, refl, sym, ap, ◌∙◌, true, false, none, some, [], ◌∷◌, ◌++◌, Text, ok, inl, inr, ◌==◌,
  nat_eq, list_eq, eq-eq, eq_refl, Bool-cases, contains, append-nil, drop_all, length, ℕ, arith,
}
use csi_hostpath.Base.Dict.{lookup, insert, lookup-insert, lookup-insert_self}
use csi_hostpath.FileSystem.{
  FilePath, components, join_path, Node, dir, file, Files, quiet, exists, mkdir_all, open_file,
  write_string, overlay, parent,
}
use csi_hostpath.FileSystem.Leads.{Leads}
use csi_hostpath.FileSystem.Quiet.{read-quiet}
use csi_hostpath.HostPath.{mount_point, copy_file, make_dir, extends, below}

-- An entry below the mount point of a volume, to which the walk comes after the entries `vs`: it
-- comes after the directories that it is in, and for the first time. Its names hold no slash, and
-- the path below the mount point does not hold the text of the mount point again.
pub record Follows (vg src : Text) (vs : Files) (k : FilePath) : Type 0 where
  pub first : Text
  pub rest : FilePath
  pub at : k ≡ components (mount_point vg src) ++ (first ∷ rest)
  pub clean : components (join_path (first ∷ rest)) ≡ first ∷ rest
  pub absent : contains (mount_point vg src) (join_path (first ∷ rest)) ≡ false
  pub new : lookup k vs ≡ none
  pub way : Leads (components (mount_point vg src)) (first ∷ rest) vs

-- Such entries, one after the other
abbrev pub IsWalk : Text → Text → Files → Files → Type 0
IsWalk vg src vs [] = Unit
IsWalk vg src vs ((k, n) ∷ es) = Follows vg src vs k × IsWalk vg src (insert k n vs) es

-- The entries that have been visited
unfoldable pub replay : Files → Files → Files
replay vs [] = vs
replay vs ((k, n) ∷ es) = replay (insert k n vs) es

-- The entries of `es` are those of `d`.
abbrev pub HeldIn : Files → Files → Type 0
HeldIn [] d = Unit
HeldIn ((k, n) ∷ es) d = (lookup k d ≡ some n) × HeldIn es d

lookup-insert_other :
    (k q : FilePath) (n : Node) (d : Files)
    → (k == q) ≡ false
    → lookup q (insert k n d) ≡ lookup q d
lookup-insert_other k q n d other = rw (lookup-insert k q n d, other) refl

module _ (vg src : Text) where
  replay_kept :
      (es vs : Files) (q : FilePath) {n : Node}
      → IsWalk vg src vs es
      → lookup q vs ≡ some n
      → lookup q (replay vs es) ≡ some n
  unfolding replay
  replay_kept [] vs q w h = h
  replay_kept ((k, m) ∷ es) vs q w h = elim (Bool-cases (k == q)) [
    | inl same ↦ absurd (cc (sym w.0.new ∙ ap (λ x. lookup x vs) (eq-eq k q same) ∙ h))
    | inr other ↦ replay_kept es (insert k m vs) q w.1 (lookup-insert_other k q m vs other ∙ h)
  ]

  replay_found :
      (es vs : Files) (q : FilePath)
      → IsWalk vg src vs es
      → lookup q vs ≡ none
      → lookup q (replay vs es) ≡ lookup q es
  unfolding replay lookup
  replay_found [] vs q w h = h
  replay_found ((k, m) ∷ es) vs q w h = elim (Bool-cases (k == q)) [
    | inl same ↦ rw same (
        replay_kept es (insert k m vs) q w.1
          (ap (λ x. lookup x (insert k m vs)) (sym (eq-eq k q same)) ∙ lookup-insert_self k m vs))
    | inr other ↦
        rw other (replay_found es (insert k m vs) q w.1 (lookup-insert_other k q m vs other ∙ h))
  ]

  -- A walk that has visited all of its entries has visited each as it is listed.
  pub lookup-replay :
      (es : Files) (q : FilePath) → IsWalk vg src [] es → lookup q (replay [] es) ≡ lookup q es
  unfolding lookup
  lookup-replay es q w = replay_found es [] q w refl

  pub HeldIn-replay : (es vs : Files) → IsWalk vg src vs es → HeldIn es (replay vs es)
  unfolding replay
  HeldIn-replay [] vs w = tt
  HeldIn-replay ((k, n) ∷ es) vs w = (
    replay_kept es (insert k n vs) k w.1 (lookup-insert_self k n vs),
    HeldIn-replay es (insert k n vs) w.1,
  )

pub extends-append : (p q : FilePath) → q ≢ [] → extends p (p ++ q) ≡ true
extends-append [] [] h = absurd (h refl)
extends-append [] (x ∷ q) h = refl
extends-append (c ∷ p) q h = rw (eq_refl c) (extends-append p q h)

-- What the walk finds below a directory is what the tree has there.
pub lookup-below :
    (p q : FilePath) (d : Files) → extends p q ≡ true → lookup q (below p d) ≡ lookup q d
unfolding lookup below
lookup-below p q [] h = refl
lookup-below p q ((k, n) ∷ d) h = elim (Bool-cases (k == q)) [
  | inl same ↦
      let in_there : extends p k ≡ true = ap (extends p) (eq-eq k q same) ∙ h in
      rw (in_there, same) refl
  | inr other ↦ elim (Bool-cases (extends p k)) [
    | inl e ↦ rw (e, other) (lookup-below p q d h)
    | inr e ↦ rw (e, other) (lookup-below p q d h)
  ]
]

overlay-nil : (b : Text) → overlay b [] ≡ b
unfolding overlay
overlay-nil b = rw (drop_all {A = ℕ} (length b) [] (omega arith)) (append-nil b)

-- A file is copied to a place where nothing is, in a directory that is there.
pub copy_file-new :
    (src des b : Text) (d : Files)
    → lookup (components src) d ≡ some (file b)
    → lookup (components des) d ≡ none
    → lookup (parent (components des)) d ≡ some dir
    → copy_file src des (quiet d)
      ≡ (ok tt, quiet (insert (components des) (file b) (insert (components des) (file []) d)))
unfolding copy_file open_file write_string
copy_file-new src des b d held missing home =
    let t = components des in
    let (opened, _) = read-quiet src d b held in
    let apart : (t == components src) ≡ false = elim (Bool-cases (t == components src)) [
      | inl same ↦ cc (sym missing ∙ ap (λ q. lookup q d) (eq-eq t (components src) same) ∙ held)
      | inr other ↦ other
    ] in
    let still = lookup-insert_other t (components src) (file []) d apart ∙ held in
    let (_, got) = read-quiet src (insert t (file []) d) b still in
    rw (opened, missing, home, got, lookup-insert_self t (file []) d, overlay-nil b) refl

pub make_dir-new :
    (t : Text) (d d' : Files)
    → lookup (components t) d ≡ none
    → mkdir_all t (quiet d) ≡ (ok tt, quiet d')
    → make_dir t (quiet d) ≡ (ok tt, quiet d')
unfolding make_dir exists
make_dir-new t d d' missing made = rw missing made
