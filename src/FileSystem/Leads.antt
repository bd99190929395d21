-- ===== src/FileSystem/Leads.antt =====
-- Ways through directories: a directory is made below one that is there, and nothing else changes.
use csi_hostpath.Base.{
  ◌≡◌, refl, sym, ap, ◌∙◌, subst, none, some, [], ◌∷◌, ◌++◌, Text, ok, continue, append_assoc,
  append-nil, nat_eq, list_eq,
}
use csi_hostpath.Base.Dict.{lookup, insert}
use csi_hostpath.FileSystem.{
  FilePath, components, dir, Files, quiet, mkdir_from, mkdir_all, parent, system_call,
}
use csi_hostpath.FileSystem.Laws.{Kept-dir}
use csi_hostpath.FileSystem.Quiet.{
  IsClear, IsClear-Grows, Grows-one, make_one-quiet, mkdir_from-quiet, parent-append,
}

-- Every place on the way from `above` down through `cs` is a directory, the last included.
abbrev pub Dirs : FilePath → FilePath → Files → Type 0
Dirs above [] d = Unit
Dirs above (c ∷ cs) d = (lookup (above ++ (c ∷ [])) d ≡ some dir) × Dirs (above ++ (c ∷ [])) cs d

-- The same without the last
abbrev pub Leads : FilePath → FilePath → Files → Type 0
Leads above [] d = Unit
Leads above (c ∷ []) d = Unit
Leads above (c ∷ x ∷ cs) d =
    (lookup (above ++ (c ∷ [])) d ≡ some dir) × Leads (above ++ (c ∷ [])) (x ∷ cs) d

pub Dirs-kept :
    (above cs : FilePath) (d d' : Files)
    → ((q : FilePath) → lookup q d ≡ some dir → lookup q d' ≡ some dir)
    → Dirs above cs d
    → Dirs above cs d'
Dirs-kept above [] d d' keep h = tt
Dirs-kept above (c ∷ cs) d d' keep h =
    (keep (above ++ (c ∷ [])) h.0, Dirs-kept (above ++ (c ∷ [])) cs d d' keep h.1)

-- What `os.MkdirAll` has made is a way of directories.
pub mkdir_from-Dirs :
    (t : Text) (above cs : FilePath) (d : Files)
    → IsClear above cs d
    → (d' : Files) × (mkdir_from t above cs (quiet d) ≡ (ok tt, quiet d')) × Dirs above cs d'
unfolding mkdir_from
mkdir_from-Dirs t above [] d h = (d, refl, tt)
mkdir_from-Dirs t above (c ∷ cs) d h =
    let here = above ++ (c ∷ []) in
    let (d1, e1, made, g1) = make_one-quiet t here d h.0 in
    let clear = IsClear-Grows here d d1 (Grows-one here d d1 g1) here cs h.1 in
    let (d2, e2, below) = mkdir_from-Dirs t here cs d1 clear in
    let (d3, e3, _, g3) = mkdir_from-quiet t here cs d1 clear in
    let still : lookup here d2 ≡ some dir =
      subst (λ x. lookup here x ≡ some dir) (ap (λ r. r.1.files) (sym e3 ∙ e2))
        (Kept-dir (here ++ cs) here _ _ (g3 here) made) in
    (d2, ap (λ r. continue r.0 (λ _. mkdir_from t here cs) r.1) e1 ∙ e2, (still, below))

-- Below a way of directories `os.MkdirAll` makes the last one only.
pub mkdir_from-made :
    (t : Text) (above : FilePath) (c : Text) (cs : FilePath) (d : Files)
    → Leads above (c ∷ cs) d
    → lookup (above ++ (c ∷ cs)) d ≡ none
    → mkdir_from t above (c ∷ cs) (quiet d) ≡ (ok tt, quiet (insert (above ++ (c ∷ cs)) dir d))
unfolding mkdir_from system_call
mkdir_from-made t above c [] d way missing = rw missing refl
mkdir_from-made t above c (x ∷ cs) d way missing =
    let here = above ++ (c ∷ []) in
    let regroup = append_assoc above (c ∷ []) (x ∷ cs) in
    let rest = mkdir_from-made t here x cs d way.1 (ap (λ q. lookup q d) regroup ∙ missing) in
    rw (way.0) (rest ∙ ap (λ q. (ok tt, quiet (insert q dir d))) regroup)

pub Leads-append :
    (above cs : FilePath) (c : Text) (rest : FilePath) (d : Files)
    → Dirs above cs d
    → Leads (above ++ cs) (c ∷ rest) d
    → Leads above (cs ++ (c ∷ rest)) d
Leads-append above [] c rest d h l = subst (λ q. Leads q (c ∷ rest) d) (append-nil above) l
Leads-append above (x ∷ []) c rest d h l = (h.0, l)
Leads-append above (x ∷ y ∷ cs) c rest d h l = (
  h.0,
  Leads-append (above ++ (x ∷ [])) (y ∷ cs) c rest d h.1
      (subst (λ q. Leads q (c ∷ rest) d) (sym (append_assoc above (x ∷ []) (y ∷ cs))) l),
)

-- The directory that the last place of a way is in
pub Leads-parent :
    (a : Text) (p : FilePath) (c : Text) (cs : FilePath) (d : Files)
    → lookup (a ∷ p) d ≡ some dir
    → Leads (a ∷ p) (c ∷ cs) d
    → lookup (parent ((a ∷ p) ++ (c ∷ cs))) d ≡ some dir
Leads-parent a p c [] d home way = ap (λ q. lookup q d) (parent-append a p c) ∙ home
Leads-parent a p c (x ∷ cs) d home way =
    ap (λ q. lookup (parent (a ∷ q)) d) (sym (append_assoc p (c ∷ []) (x ∷ cs)))
    ∙ Leads-parent a (p ++ (c ∷ [])) x cs d way.0 way.1

pub mkdir_all-made :
    (t a : Text) (p : FilePath) (c : Text) (rest : FilePath) (d : Files)
    → components t ≡ (a ∷ p) ++ (c ∷ rest)
    → Dirs [] (a ∷ p) d
    → Leads (a ∷ p) (c ∷ rest) d
    → lookup (components t) d ≡ none
    → mkdir_all t (quiet d) ≡ (ok tt, quiet (insert (components t) dir d))
unfolding mkdir_all
mkdir_all-made t a p c rest d at home way missing =
    let whole = Leads-append [] (a ∷ p) c rest d home way in
    ap (λ q. mkdir_from t [] q (quiet d)) at
    ∙ mkdir_from-made t [] a (p ++ (c ∷ rest)) d whole (ap (λ q. lookup q d) (sym at) ∙ missing)
    ∙ ap (λ q. (ok tt, quiet (insert q dir d))) (sym at)
