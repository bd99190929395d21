-- ===== src/FileSystem/Entries.antt =====
-- The entries of a directory in a tree that has at most one node at a path.
use csi_hostpath.Base.{
  ◌≡◌, ◌≢◌, refl, sym, ap, ◌∙◌, Bool, true, false, Option, none, some, List, [], ◌∷◌, ◌++◌, Text,
  ◌⊎◌, inl, inr, Bool-cases, ◌==◌, nat_eq, list_eq, eq-eq, eq_refl, if◌then◌else◌, ◌||◌,
}
use csi_hostpath.Base.Dict.{lookup}
use csi_hostpath.FileSystem.{FilePath, Node, dir, file, Files, children, child_name, add_child}
use csi_hostpath.FileSystem.Unique.{IsUnique}

abbrev pub is_dir : Option Node → Bool
is_dir none = false
is_dir (some (file b)) = false
is_dir (some dir) = true

-- Whether a directory of that name is among the entries
unfoldable pub has_dir : Text → List (Text × Node) → Bool
has_dir x [] = false
has_dir x ((y, file b) ∷ es) = has_dir x es
has_dir x ((y, dir) ∷ es) = y == x || has_dir x es

child_name-eq : (p k : FilePath) (x : Text) → child_name p k ≡ some x → k ≡ p ++ (x ∷ [])
child_name-eq [] [] x h = absurd cc
child_name-eq [] (y ∷ []) x h = cc
child_name-eq [] (y ∷ z ∷ k) x h = absurd cc
child_name-eq (c ∷ p) [] x h = absurd cc
child_name-eq (c ∷ p) (y ∷ k) x h = elim (Bool-cases (c == y)) [
  | inl same ↦
      let deeper = rw same at h in
      let rest = child_name-eq p k x deeper in cc (eq-eq c y same, rest)
  | inr other ↦ let none_there = rw other at h in absurd cc
]

child_name-append : (p : FilePath) (x : Text) → child_name p (p ++ (x ∷ [])) ≡ some x
child_name-append [] x = refl
child_name-append (c ∷ p) x = rw (eq_refl c, child_name-append p x) refl

has_dir-add_child :
    (o : Option Text) (n : Node) (x : Text) (es : List (Text × Node))
    → o ≢ some x
    → has_dir x (add_child o n es) ≡ has_dir x es
unfolding has_dir
has_dir-add_child none n x es h = refl
has_dir-add_child (some y) (file b) x es h = refl
has_dir-add_child (some y) dir x es h = elim (Bool-cases (y == x)) [
  | inl same ↦ absurd (h (ap some (eq-eq y x same)))
  | inr other ↦ rw other refl
]

-- A directory is among the entries exactly where the tree has one at its path.
pub has_dir-children :
    (p : FilePath) (x : Text) (d : Files)
    → IsUnique d
    → has_dir x (children p d) ≡ is_dir (lookup (p ++ (x ∷ [])) d)
unfolding has_dir children lookup
has_dir-children p x [] u = refl
has_dir-children p x ((k, n) ∷ d) u = elim (Bool-cases (k == p ++ (x ∷ []))) [
  | inl same ↦
      let at = eq-eq k (p ++ (x ∷ [])) same in
      let later : has_dir x (children p d) ≡ false =
        has_dir-children p x d u.1 ∙ ap is_dir (ap (λ j. lookup j d) (sym at) ∙ u.0) in
      rw (same, at, child_name-append p x) (here n later)
  | inr other ↦ rw other (
      has_dir-add_child (child_name p k) n x (children p d)
        (λ e. apart other (child_name-eq p k x e))
      ∙ has_dir-children p x d u.1)
]
  where
    here :
        (m : Node)
        → has_dir x (children p d) ≡ false
        → has_dir x ((x, m) ∷ children p d) ≡ is_dir (some m)
    here (file b) later = later
    here dir later = rw (eq_refl x) refl

    apart : (k == p ++ (x ∷ [])) ≡ false → k ≢ p ++ (x ∷ [])
    apart other e = cc (sym other ∙ ap (λ j. j == p ++ (x ∷ [])) e ∙ eq_refl (p ++ (x ∷ [])))

-- `P` holds of the names of the directories among the entries.
abbrev pub AllDirs : (Text → Type 0) → List (Text × Node) → Type 0
AllDirs P [] = Unit
AllDirs P ((x, file b) ∷ es) = AllDirs P es
AllDirs P ((x, dir) ∷ es) = P x × AllDirs P es

pub AllDirs-children :
    (P : Text → Type 0) (p : FilePath) (d : Files)
    → IsUnique d
    → ((x : Text) → lookup (p ++ (x ∷ [])) d ≡ some dir → P x)
    → AllDirs P (children p d)
unfolding children lookup
AllDirs-children P p [] u h = tt
AllDirs-children P p ((k, n) ∷ d) u h =
    go (AllDirs-children P p d u.1 (λ x e. h x (still x e (Bool-cases (k == p ++ (x ∷ []))))))
      (child_name p k) refl n refl
  where
    still :
        (x : Text)
        → lookup (p ++ (x ∷ [])) d ≡ some dir
        → ((k == p ++ (x ∷ [])) ≡ true) ⊎ ((k == p ++ (x ∷ [])) ≡ false)
        → (if k == p ++ (x ∷ []) then some n else lookup (p ++ (x ∷ [])) d) ≡ some dir
    still x e (inl same) =
        absurd (cc (sym u.0 ∙ ap (λ j. lookup j d) (eq-eq k (p ++ (x ∷ [])) same) ∙ e))
    still x e (inr other) = rw other e

    go :
        AllDirs P (children p d)
        → (o : Option Text) → child_name p k ≡ o
        → (m : Node) → n ≡ m
        → AllDirs P (add_child o m (children p d))
    go later none e m f = later
    go later (some x) e (file b) f = later
    go later (some x) e dir f =
        let at = child_name-eq p k x e in
        (h x (rw (at, eq_refl (p ++ (x ∷ []))) (ap some f)), later)
