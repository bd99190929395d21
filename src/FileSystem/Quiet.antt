-- ===== src/FileSystem/Quiet.antt =====
-- The system calls in a world where none of them fails: what they return and what they leave.
use csi_hostpath.Base.{
  ◌≡◌, refl, ap, ◌∙◌, sym, subst, ◌≢◌, ◌⊎◌, inl, inr, true, false, Option, none, some, [], ◌∷◌,
  ◌++◌, Text, ok, err, has_prefix, has_prefix-append, has_prefix_refl, has_prefix_split, continue,
  nat_eq, list_eq, eq-eq, ◌==◌, Bool-cases, Option-cases, append_assoc, append-nil,
}
use csi_hostpath.Base.Dict.{lookup, insert, lookup-insert, lookup-insert_self}
use csi_hostpath.FileSystem.{
  FilePath, components, Node, dir, file, Files, quiet, system_call, mkdir_from, mkdir_all,
  open_file, write_string, os_remove, remove_all, overlay, parent, erase_below, make_one, os_open,
  read_all, path_error, read_dir, children,
}
use csi_hostpath.FileSystem.Laws.{Kept, Kept_trans}

-- No file stands on the way from `above` down through `cs`.
abbrev pub IsClear : FilePath → FilePath → Files → Type 0
IsClear above [] d = Unit
IsClear above (c ∷ cs) d =
    ((b : Text) → lookup (above ++ (c ∷ [])) d ≢ some (file b)) × IsClear (above ++ (c ∷ [])) cs d

abbrev pub IsDir : FilePath → Files → Type 0
IsDir [] d = Unit
IsDir (c ∷ p) d = lookup (c ∷ p) d ≡ some dir

-- What the making of the directories on the way to `p` does to a lookup
abbrev pub Grows : FilePath → Files → Files → Type 0
Grows p d d' = (q : FilePath) → Kept p q (lookup q d) (lookup q d')

pub IsClear-Grows :
    (p : FilePath) (d d' : Files)
    → Grows p d d'
    → (above cs : FilePath) → IsClear above cs d
    → IsClear above cs d'
IsClear-Grows p d d' g above [] h = tt
IsClear-Grows p d d' g above (c ∷ cs) h = (
  λ b e. elim (g (above ++ (c ∷ []))) [
    | inl same ↦ h.0 b (sym same ∙ e)
    | inr (missing, made, way) ↦ cc
  ],
  IsClear-Grows p d d' g (above ++ (c ∷ [])) cs h.1,
)

-- One step on the way.
pub make_one-quiet :
    (t : Text) (p : FilePath) (d : Files)
    → ((b : Text) → lookup p d ≢ some (file b))
    → (d' : Files) × (make_one t p (lookup p d) (quiet d) ≡ (ok tt, quiet d'))
      × (lookup p d' ≡ some dir)
      × ((q : FilePath)
          → (lookup q d' ≡ lookup q d) ⊎ ((lookup q d ≡ none) × (lookup q d' ≡ some dir) × (q ≡ p)))
unfolding system_call
make_one-quiet t p d h = go (lookup p d) refl
  where
    go :
        (found : Option Node)
        → lookup p d ≡ found
        → (d' : Files) × (make_one t p found (quiet d) ≡ (ok tt, quiet d'))
          × (lookup p d' ≡ some dir)
          × ((q : FilePath)
              → (lookup q d' ≡ lookup q d)
                ⊎ ((lookup q d ≡ none) × (lookup q d' ≡ some dir) × (q ≡ p)))
    go (some dir) e = (d, refl, e, λ q. inl refl)
    go (some (file b)) e = absurd (h b e)
    go none e = (
      insert p dir d,
      refl,
      lookup-insert_self p dir d,
      λ q. elim (Bool-cases (p == q)) [
        | inl same ↦
            let pq = eq-eq p q same in
            inr (
              subst (λ x. lookup x d ≡ none) pq e,
              subst (λ x. lookup x (insert p dir d) ≡ some dir) pq (lookup-insert_self p dir d),
              sym pq,
            )
        | inr differ ↦ inl (rw (lookup-insert p q dir d, differ))
      ],
    )

pub Grows-one :
    (p : FilePath) (d d' : Files)
    → ((q : FilePath)
        → (lookup q d' ≡ lookup q d) ⊎ ((lookup q d ≡ none) × (lookup q d' ≡ some dir) × (q ≡ p)))
    → Grows p d d'
Grows-one p d d' g q = elim (g q) [
  | inl same ↦ inl same
  | inr (missing, made, at) ↦
      inr (missing, made, subst (λ x. has_prefix x p ≡ true) (sym at) (has_prefix_refl p))
]

pub has_prefix_longer : (q p cs : FilePath) → has_prefix q p ≡ true → has_prefix q (p ++ cs) ≡ true
has_prefix_longer q p cs h =
    let (r, e) = has_prefix_split q p h in
    ap (λ x. has_prefix q (x ++ cs)) e
    ∙ ap (has_prefix q) (append_assoc q r cs)
    ∙ has_prefix-append q (r ++ cs)

Grows-trans :
    (p cs : FilePath) (d d1 d2 : Files)
    → Grows p d d1
    → Grows (p ++ cs) d1 d2
    → Grows (p ++ cs) d d2
Grows-trans p cs d d1 d2 g1 g2 q = Kept_trans (p ++ cs) q _ _ _ (longer (g1 q)) (g2 q)
  where
    longer : Kept p q (lookup q d) (lookup q d1) → Kept (p ++ cs) q (lookup q d) (lookup q d1)
    longer (inl same) = inl same
    longer (inr (missing, made, way)) = inr (missing, made, has_prefix_longer q p cs way)

pub IsDir-of : (p : FilePath) (d : Files) → lookup p d ≡ some dir → IsDir p d
IsDir-of [] d h = tt
IsDir-of (c ∷ p) d h = h

pub mkdir_from-quiet :
    (t : Text) (above cs : FilePath) (d : Files)
    → IsClear above cs d
    → (d' : Files) × (mkdir_from t above cs (quiet d) ≡ (ok tt, quiet d'))
      × (IsDir above d → IsDir (above ++ cs) d')
      × Grows (above ++ cs) d d'
unfolding mkdir_from
mkdir_from-quiet t above [] d h =
    (d, refl, λ x. subst (λ p. IsDir p d) (sym (append-nil above)) x, λ q. inl refl)
mkdir_from-quiet t above (c ∷ cs) d h =
    let here = above ++ (c ∷ []) in
    let regroup : here ++ cs ≡ above ++ (c ∷ cs) = append_assoc above (c ∷ []) cs in
    let (d1, e1, made, g1) = make_one-quiet t here d h.0 in
    let first : Grows here d d1 = Grows-one here d d1 g1 in
    let (d2, e2, reached, g2) =
      mkdir_from-quiet t here cs d1 (IsClear-Grows here d d1 first here cs h.1) in
    (
      d2,
      ap (λ r. continue r.0 (λ _. mkdir_from t here cs) r.1) e1 ∙ e2,
      λ _. subst (λ p. IsDir p d2) regroup (reached (IsDir-of here d1 made)),
      λ q.
          subst (λ p. Kept p q (lookup q d) (lookup q d2)) regroup
            (Grows-trans here cs d d1 d2 first g2 q),
    )

pub mkdir_all-quiet :
    (t : Text) (d : Files)
    → IsClear [] (components t) d
    → (d' : Files) × (mkdir_all t (quiet d) ≡ (ok tt, quiet d'))
      × IsDir (components t) d'
      × Grows (components t) d d'
unfolding mkdir_all
mkdir_all-quiet t d h =
    let (d', e, reached, g) = mkdir_from-quiet t [] (components t) d h in (d', e, reached tt, g)

-- `os.OpenFile` without O_TRUNC and a write: the bytes go over the beginning of what is there.
unfoldable pub bytes : Option Node → Text
bytes (some (file b)) = b
bytes _ = []

pub parent-append :
    (c : Text) (p : FilePath) (last : Text) → parent ((c ∷ p) ++ (last ∷ [])) ≡ c ∷ p
unfolding parent
parent-append c [] last = refl
parent-append c (x ∷ p) last = ap (λ r. c ∷ r) (parent-append x p last)

module _ (t : Text) (d : Files) where
  pub open_file-quiet :
      lookup (components t) d ≢ some dir
      → (lookup (components t) d ≡ none → lookup (parent (components t)) d ≡ some dir)
      → (d' : Files) × (open_file t false (quiet d) ≡ (ok tt, quiet d'))
        × (lookup (components t) d' ≡ some (file (bytes (lookup (components t) d))))
        × ((q : FilePath) → (components t == q) ≡ false → lookup q d' ≡ lookup q d)
  unfolding open_file bytes
  open_file-quiet plain above = elim (Option-cases (lookup (components t) d)) [
    | inl missing ↦ (
      insert (components t) (file []) d,
      rw (missing, above missing),
      rw missing (lookup-insert_self (components t) (file []) d),
      λ q differ. rw (lookup-insert (components t) q (file []) d, differ),
    )
    | inr (dir, e) ↦ absurd (plain e)
    | inr (file b, e) ↦ (d, rw e, rw e, λ q differ. refl)
  ]

  pub write_string-quiet :
      (b old : Text)
      → lookup (components t) d ≡ some (file old)
      → write_string t b (quiet d) ≡ (ok tt, quiet (insert (components t) (file (overlay b old)) d))
  unfolding write_string
  write_string-quiet b old e = rw e

  pub read-quiet :
      (b : Text)
      → lookup (components t) d ≡ some (file b)
      → (os_open t (quiet d) ≡ (ok tt, quiet d)) × (read_all t (quiet d) ≡ (ok b, quiet d))
  unfolding os_open read_all
  read-quiet b e = (rw e, rw e)

  pub open-quiet_missing :
      lookup (components t) d ≡ none → (e : Text) × (os_open t (quiet d) ≡ (err e, quiet d))
  unfolding os_open
  open-quiet_missing h = (path_error "open" t "no such file or directory", rw h)

  pub remove-quiet :
      (b : Text)
      → lookup (components t) d ≡ some (file b)
      → os_remove t (quiet d) ≡ (ok tt, quiet (erase_below (components t) d))
  unfolding os_remove
  remove-quiet b e = rw e

  pub remove_all-quiet : remove_all t (quiet d) ≡ (ok tt, quiet (erase_below (components t) d))
  unfolding remove_all
  remove_all-quiet = refl

  pub read_dir-quiet :
      lookup (components t) d ≡ some dir
      → (os_open t (quiet d) ≡ (ok tt, quiet d))
        × (read_dir t (quiet d) ≡ (ok (children (components t) d), quiet d))
  unfolding os_open read_dir
  read_dir-quiet e = (rw e, rw e)
