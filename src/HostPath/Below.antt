-- ===== src/HostPath/Below.antt =====
-- What is below a directory does not change where directories are made elsewhere.
use csi_hostpath.Base.{
  ◌≡◌, refl, sym, ap, ◌∙◌, false, [], ◌∷◌, ◌++◌, Text, ok, inl, inr, ◌==◌, nat_eq, list_eq, eq-eq,
  eq_refl, Bool-cases, Option-cases, continue, append_assoc,
}
use csi_hostpath.Base.Dict.{lookup, insert}
use csi_hostpath.FileSystem.{
  FilePath, components, Node, dir, file, Files, quiet, mkdir_from, mkdir_all, make_one, system_call,
}
use csi_hostpath.FileSystem.Quiet.{IsClear, IsClear-Grows, Grows-one, make_one-quiet}
use csi_hostpath.HostPath.{extends, below}

pub extends_self : (p : FilePath) → extends p p ≡ false
extends_self [] = refl
extends_self (c ∷ p) = rw (eq_refl c) (extends_self p)

pub extends_cancel : (p q r : FilePath) → extends (p ++ q) (p ++ r) ≡ extends q r
extends_cancel [] q r = refl
extends_cancel (c ∷ p) q r = rw (eq_refl c) (extends_cancel p q r)

extends_longer : (p q r : FilePath) → extends p (q ++ r) ≡ false → extends p q ≡ false
extends_longer p [] r h = nothing p
  where
    nothing : (p : FilePath) → extends p [] ≡ false
    nothing [] = refl
    nothing (c ∷ p) = refl
extends_longer [] (x ∷ q) r h = cc
extends_longer (c ∷ p) (x ∷ q) r h = elim (Bool-cases (c == x)) [
  | inl same ↦ rw same (extends_longer p q r (sym (rw same refl) ∙ h))
  | inr other ↦ rw other refl
]

below-insert :
    (p k : FilePath) (n : Node) (d : Files)
    → extends p k ≡ false
    → below p (insert k n d) ≡ below p d
unfolding below insert
below-insert p k n [] h = rw h refl
below-insert p k n ((j, m) ∷ d) h = elim (Bool-cases (j == k)) [
  | inl same ↦
      let old : extends p j ≡ false = ap (extends p) (eq-eq j k same) ∙ h in rw (same, h, old) refl
  | inr other ↦ elim (Bool-cases (extends p j)) [
    | inl e ↦ rw (other, e) (ap (λ r. (j, m) ∷ r) (below-insert p k n d h))
    | inr e ↦ rw (other, e) (below-insert p k n d h)
  ]
]

make_one-below :
    (p : FilePath) (t : Text) (k : FilePath) (d : Files)
    → extends p k ≡ false
    → below p (make_one t k (lookup k d) (quiet d)).1.files ≡ below p d
unfolding system_call
make_one-below p t k d h = elim (Option-cases (lookup k d)) [
  | inl missing ↦ rw missing (below-insert p k dir d h)
  | inr (dir, e) ↦ rw e refl
  | inr (file b, e) ↦ rw e refl
]

mkdir_from-below :
    (p : FilePath) (t : Text) (above cs : FilePath) (d : Files)
    → IsClear above cs d
    → extends p (above ++ cs) ≡ false
    → below p (mkdir_from t above cs (quiet d)).1.files ≡ below p d
unfolding mkdir_from
mkdir_from-below p t above [] d clear h = refl
mkdir_from-below p t above (c ∷ cs) d clear h =
    let here = above ++ (c ∷ []) in
    let whole : extends p (here ++ cs) ≡ false =
      ap (extends p) (append_assoc above (c ∷ []) cs) ∙ h in
    let (d1, e1, made, g1) = make_one-quiet t here d clear.0 in
    let first : below p d1 ≡ below p d =
      ap (λ r. below p r.1.files) (sym e1)
      ∙ make_one-below p t here d (extends_longer p here cs whole) in
    ap (λ r. below p (continue r.0 (λ _. mkdir_from t here cs) r.1).1.files) e1
    ∙ mkdir_from-below p t here cs d1
        (IsClear-Grows here d d1 (Grows-one here d d1 g1) here cs clear.1) whole
    ∙ first

pub mkdir_all-below :
    (p : FilePath) (t : Text) (d d' : Files)
    → IsClear [] (components t) d
    → extends p (components t) ≡ false
    → mkdir_all t (quiet d) ≡ (ok tt, quiet d')
    → below p d' ≡ below p d
unfolding mkdir_all
mkdir_all-below p t d d' clear h run =
    ap (λ r. below p r.1.files) (sym run) ∙ mkdir_from-below p t [] (components t) d clear h
