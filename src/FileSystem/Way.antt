-- ===== src/FileSystem/Way.antt =====
-- The directories on the way that `os.MkdirAll` makes are there afterwards.
use csi_hostpath.Base.{
  ◌≡◌, sym, ap, ◌∙◌, subst, [], ◌∷◌, ◌++◌, Text, ok, nat_eq, continue, append-nil, append_assoc,
}
use csi_hostpath.FileSystem.{FilePath, components, Files, quiet, mkdir_from, mkdir_all}
use csi_hostpath.FileSystem.Laws.{Kept-dir}
use csi_hostpath.FileSystem.Quiet.{
  IsClear, IsDir, IsDir-of, Grows, Grows-one, IsClear-Grows, make_one-quiet, mkdir_from-quiet,
}

IsDir-Grows : (p q : FilePath) (d d' : Files) → Grows p d d' → IsDir q d → IsDir q d'
IsDir-Grows p [] d d' g h = tt
IsDir-Grows p (c ∷ q) d d' g h = Kept-dir p (c ∷ q) _ _ (g (c ∷ q)) h

mkdir_from-way :
    (t : Text) (above p q : FilePath) (d : Files)
    → IsClear above (p ++ q) d
    → IsDir above d
    → (d' : Files) × (mkdir_from t above (p ++ q) (quiet d) ≡ (ok tt, quiet d'))
      × IsDir (above ++ p) d'
unfolding mkdir_from
mkdir_from-way t above [] q d clear there =
    let (d', run, reached, g) = mkdir_from-quiet t above q d clear in
    (d', run, subst (λ k. IsDir k d') (sym (append-nil above)) (IsDir-Grows _ above d d' g there))
mkdir_from-way t above (c ∷ p) q d clear there =
    let here = above ++ (c ∷ []) in
    let (d1, e1, made, g1) = make_one-quiet t here d clear.0 in
    let (d2, e2, way) =
      mkdir_from-way t here p q d1
        (IsClear-Grows here d d1 (Grows-one here d d1 g1) here (p ++ q) clear.1)
        (IsDir-of here d1 made) in
    (
      d2,
      ap (λ r. continue r.0 (λ _. mkdir_from t here (p ++ q)) r.1) e1 ∙ e2,
      subst (λ k. IsDir k d2) (append_assoc above (c ∷ []) p) way,
    )

pub mkdir_all-way :
    (t : Text) (p q : FilePath) (d : Files)
    → components t ≡ p ++ q
    → IsClear [] (components t) d
    → (d' : Files) × (mkdir_all t (quiet d) ≡ (ok tt, quiet d')) × IsDir p d'
unfolding mkdir_all
mkdir_all-way t p q d e clear =
    let (d', run, way) = mkdir_from-way t [] p q d (subst (λ k. IsClear [] k d) e clear) tt in
    (d', ap (λ k. mkdir_from t [] k (quiet d)) e ∙ run, way)
