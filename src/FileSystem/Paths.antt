-- ===== src/FileSystem/Paths.antt =====
-- FilePaths. The program formats a path as text, and the operating system reads it as the list of its
-- nonempty components. The components `.` and `..` are not resolved, and are no names: a theorem about
-- the paths of a volume asks for names.
use csi_hostpath.Base.{
  ℕ, Bool, false, ◌||◌, list_eq, text, ◌≡◌, refl, ap, ◌≢◌, List, [], ◌∷◌, ◌++◌, Text, arith, ◌==◌,
  nat_eq, if◌then◌else◌, inl, inr, Bool-cases,
}

abbrev pub slash : ℕ
slash = b'/'

abbrev pub FilePath : Type 0
FilePath = List Text

-- `fmt.Sprintf("%s/%s", a, b)`
infixr 66 ◌//◌
abbrev pub ◌//◌ : Text → Text → Text
a // b = a ++ (slash ∷ b)

push : ℕ → FilePath → FilePath
push c [] = (c ∷ []) ∷ []
push c (w ∷ ws) = (c ∷ w) ∷ ws

split_slash : Text → FilePath
unfolding push
split_slash [] = [] ∷ []
split_slash (c ∷ s) = let rest = split_slash s in if c == slash then [] ∷ rest else push c rest

drop_empty : FilePath → FilePath
drop_empty [] = []
drop_empty ([] ∷ ws) = drop_empty ws
drop_empty ((c ∷ w) ∷ ws) = (c ∷ w) ∷ drop_empty ws

unfoldable pub components : Text → FilePath
unfolding split_slash drop_empty
components s = drop_empty (split_slash s)

-- The text that `filepath.Walk` hands on for an entry: `filepath.Join` cleans it.
unfoldable pub join_path : FilePath → Text
join_path [] = []
join_path (c ∷ cs) = slash ∷ (c ++ join_path cs)

push-append : (c : ℕ) (ws vs : FilePath) → ws ≢ [] → push c ws ++ vs ≡ push c (ws ++ vs)
unfolding push
push-append c [] vs h = absurd (h refl)
push-append c (w ∷ ws) vs h = refl

split_slash-ne-nil : (s : Text) → split_slash s ≢ []
unfolding split_slash
split_slash-ne-nil [] = λ e. cc
split_slash-ne-nil (c ∷ s) =
    elim (split_slash s) as (λ r. (if c == slash then [] ∷ r else push c r) ≢ []) [
      | [] ↦ ground arith
      | w ∷ ws ↦ ground arith
    ]

split_slash-append : (a b : Text) → split_slash (a // b) ≡ split_slash a ++ split_slash b
unfolding split_slash
split_slash-append [] b = refl
split_slash-append (c ∷ a) b = elim (Bool-cases (c == slash)) [
  | inl e ↦ rw (e, split_slash-append a b)
  | inr e ↦ rw (
    e,
    split_slash-append a b,
    push-append c (split_slash a) (split_slash b) (split_slash-ne-nil a),
  )
]

drop_empty-append : (ws vs : FilePath) → drop_empty (ws ++ vs) ≡ drop_empty ws ++ drop_empty vs
unfolding drop_empty
drop_empty-append [] vs = refl
drop_empty-append ([] ∷ ws) vs = drop_empty-append ws vs
drop_empty-append ((c ∷ w) ∷ ws) vs = ap (λ r. (c ∷ w) ∷ r) (drop_empty-append ws vs)

-- The components of two texts joined by a slash.
pub components-join : (a b : Text) → components (a // b) ≡ components a ++ components b
unfolding components
components-join a b = rw split_slash-append (drop_empty-append (split_slash a) (split_slash b))

-- The names that the operating system reads as a directory and its parent
abbrev pub is_dots : Text → Bool
unfolding text
is_dots s = s == text "." || s == text ".."

-- A text that is one component, and not `.` or `..`: it is not empty and holds no slash.
abbrev pub IsName : Text → Type 0
IsName s = (components s ≡ s ∷ []) × (is_dots s ≡ false)
