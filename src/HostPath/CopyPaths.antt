-- ===== src/HostPath/CopyPaths.antt =====
-- Where a copy puts the entries of the source: below the mount point of the destination.
use csi_hostpath.Base.{
  ◌≡◌, refl, ap, sym, ◌∙◌, true, [], ◌∷◌, ◌++◌, Text, text, nat_eq, list_eq, has_prefix,
  has_prefix-append, append_assoc, append-nil, arith, replace_all, replace_all-append,
  replace_all-head, replace_all-absent, contains, false, eq-eq,
}
use csi_hostpath.FileSystem.{◌//◌, FilePath, components, join_path, slash, components-join, IsName}
use csi_hostpath.HostPath.{root, mount_point, extends}

join_path-append : (p q : FilePath) → join_path (p ++ q) ≡ join_path p ++ join_path q
unfolding join_path
join_path-append [] q = refl
join_path-append (c ∷ p) q = rw (join_path-append p q, append_assoc c (join_path p) (join_path q))

pub extends_split :
    (p k : FilePath) → extends p k ≡ true → (c : Text) × (rest : FilePath) × (k ≡ p ++ (c ∷ rest))
extends_split [] [] h = absurd (cc)
extends_split [] (x ∷ k) h = (x, k, refl)
extends_split (c ∷ p) [] h = absurd (cc)
extends_split (c ∷ p) (x ∷ k) h =
    let (d, rest, e) = extends_split p k (ground arith) in (d, rest, ground (arith, eq-eq c x))

root_clean : join_path (components root) ≡ root
unfolding root components join_path text
root_clean = refl

last_clean : components (text "mountpoint") ≡ text "mountpoint" ∷ []
unfolding components text
last_clean = refl

root_head : root ≡ slash ∷ text "opt/csi-hostpath"
unfolding root text
root_head = refl

module _ (vg name : Text) (one : IsName vg) (single : IsName name) where
  -- For plain names the text of the mount point is clean.
  pub join-mount_point : join_path (components (mount_point vg name)) ≡ mount_point vg name
  unfolding join_path
  join-mount_point =
      ap join_path (
        components-join root (vg // (name // text "mountpoint"))
        ∙ ap (λ q. components root ++ q)
            (components-join vg (name // text "mountpoint")
              ∙ ap (λ q. components vg ++ q) (components-join name (text "mountpoint"))))
      ∙ join_path-append (components root)
          (components vg ++ (components name ++ components (text "mountpoint")))
      ∙ rw (root_clean, one.0, single.0, last_clean, append-nil)

replaced :
    (m d rest : Text)
    → (x : Text) × (replace_all (slash ∷ m) (slash ∷ d) ((slash ∷ m) ++ (slash ∷ rest))
        ≡ (slash ∷ d) // x)
replaced m d rest =
    let (x, e) = replace_all-head slash m d rest in
    (x, replace_all-append slash m (slash ∷ d) (slash ∷ rest) ∙ ap (λ r. (slash ∷ d) ++ r) e)

-- The text of a mount point, without the slash that it begins with
abbrev mount_tail : Text → Text → Text
mount_tail vg name =
    text "opt/csi-hostpath" ++ (slash ∷ (vg ++ (slash ∷ (name ++ (slash ∷ text "mountpoint")))))

mount_point-head : (vg name : Text) → mount_point vg name ≡ slash ∷ mount_tail vg name
mount_point-head vg name = ap (λ r. r // (vg // (name // text "mountpoint"))) root_head

module _ (vg src dest : Text) (one : IsName vg) (single : IsName src) where
  -- The path that an entry below the mount point of `src` is copied to.
  pub target :
      (k : FilePath)
      → extends (components (mount_point vg src)) k ≡ true
      → (x : Text) × (replace_all (mount_point vg src) (mount_point vg dest) (join_path k)
          ≡ mount_point vg dest // x)
  unfolding join_path
  target k h =
      let (c, rest, e) = extends_split (components (mount_point vg src)) k h in
      let (x, r) = replaced (mount_tail vg src) (mount_tail vg dest) (c ++ join_path rest) in
      let clean : join_path k ≡ (slash ∷ mount_tail vg src) ++ (slash ∷ (c ++ join_path rest)) =
        ap join_path e
        ∙ join_path-append (components (mount_point vg src)) (c ∷ rest)
        ∙ ap (λ t. t ++ (slash ∷ (c ++ join_path rest)))
            (join-mount_point vg src one single ∙ mount_point-head vg src) in
      (x, cc (clean, r, mount_point-head vg src, mount_point-head vg dest))

  pub target-inside :
      (k : FilePath)
      → extends (components (mount_point vg src)) k ≡ true
      → has_prefix
          (components (mount_point vg dest))
          (components (replace_all (mount_point vg src) (mount_point vg dest) (join_path k)))
        ≡ true
  target-inside k h =
      let (x, r) = target k h in
      let inside = has_prefix-append (components (mount_point vg dest)) (components x) in
      let at = ap components r ∙ components-join (mount_point vg dest) x in
      ap (has_prefix (components (mount_point vg dest))) at ∙ inside

  -- Where the rest of the path does not hold the text of the mount point, it stays as it is.
  pub target-rest :
      (c : Text) (rest : FilePath)
      → contains (mount_point vg src) (join_path (c ∷ rest)) ≡ false
      → replace_all
          (mount_point vg src)
          (mount_point vg dest)
          (join_path (components (mount_point vg src) ++ (c ∷ rest)))
        ≡ mount_point vg dest ++ join_path (c ∷ rest)
  target-rest c rest absent =
      let text_of = join_path (c ∷ rest) in
      let clean =
        join_path-append (components (mount_point vg src)) (c ∷ rest)
        ∙ ap (λ t. t ++ text_of) (join-mount_point vg src one single) in
      let head = mount_point-head vg src in
      let moved = replace_all-append slash (mount_tail vg src) (mount_point vg dest) text_of in
      ap (replace_all (mount_point vg src) (mount_point vg dest)) clean
      ∙ ap (λ m. replace_all m (mount_point vg dest) (m ++ text_of)) head
      ∙ moved
      ∙ ap (λ m. mount_point vg dest ++ replace_all m (mount_point vg dest) text_of) (sym head)
      ∙ ap (λ t. mount_point vg dest ++ t)
          (replace_all-absent (mount_point vg src) (mount_point vg dest) text_of absent)

  -- A path whose components have no slashes is read back.
  pub components-target :
      (c : Text) (rest : FilePath)
      → components (join_path (c ∷ rest)) ≡ c ∷ rest
      → components (mount_point vg dest ++ join_path (c ∷ rest))
        ≡ components (mount_point vg dest) ++ (c ∷ rest)
  unfolding join_path components
  components-target c rest clean =
      components-join (mount_point vg dest) (c ++ join_path rest)
      ∙ ap (λ q. components (mount_point vg dest) ++ q) clean

module _ (vg src : Text) (one : IsName vg) (single : IsName src) where
  -- The text of an entry below a mount point is read back as its path.
  pub components-source :
      (c : Text) (rest : FilePath)
      → components (join_path (c ∷ rest)) ≡ c ∷ rest
      → components (join_path (components (mount_point vg src) ++ (c ∷ rest)))
        ≡ components (mount_point vg src) ++ (c ∷ rest)
  components-source c rest clean =
      ap components (
        join_path-append (components (mount_point vg src)) (c ∷ rest)
        ∙ ap (λ t. t ++ join_path (c ∷ rest)) (join-mount_point vg src one single))
      ∙ components-target vg src src one single c rest clean
