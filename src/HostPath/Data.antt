-- ===== src/HostPath/Data.antt =====
-- The data of a copy: below its mount point a clone or a snapshot holds what the source holds below
-- its own.
use csi_hostpath.Base.{
  ◌≡◌, ◌≢◌, refl, sym, ap, ◌∙◌, subst, false, none, some, [], ◌∷◌, ◌++◌, Text, ok, inl, inr, ◌==◌,
  nat_eq, list_eq, list_beq, eq-eq, eq_refl, if◌then◌else◌, Bool-cases, replace_all, has_prefix,
  has_prefix-append, append_assoc, append-nil,
}
use csi_hostpath.Base.Dict.{lookup, insert, lookup-insert}
use csi_hostpath.FileSystem.{
  FilePath, components, join_path, Node, dir, file, Files, quiet, exists, IsName, parent,
}
use csi_hostpath.FileSystem.Leads.{Dirs, Dirs-kept, Leads, Leads-parent, mkdir_all-made}
use csi_hostpath.HostPath.{mount_point, visit, visit_all}
use csi_hostpath.HostPath.CopyPaths.{target-rest, components-target, components-source}
use csi_hostpath.HostPath.Walk.{Follows, IsWalk, replay, HeldIn, copy_file-new, make_dir-new}

append-ne-nil : (q : FilePath) (c : Text) → q ++ (c ∷ []) ≢ []
append-ne-nil [] c e = cc
append-ne-nil (x ∷ q) c e = cc

-- Below `p` the tree `d` has what `vs` has below `s`.
abbrev pub Mirrors : FilePath → FilePath → Files → Files → Type 0
Mirrors s p vs d = (q : FilePath) → q ≢ [] → lookup (p ++ q) d ≡ lookup (s ++ q) vs

Leads-mirror :
    (s p : FilePath) (vs d : Files)
    → Mirrors s p vs d
    → (a cs : FilePath) → Leads (s ++ a) cs vs
    → Leads (p ++ a) cs d
Leads-mirror s p vs d mirror a [] h = tt
Leads-mirror s p vs d mirror a (c ∷ []) h = tt
Leads-mirror s p vs d mirror a (c ∷ x ∷ cs) h = (
  ap (λ q. lookup q d) (append_assoc p a (c ∷ []))
      ∙ mirror (a ++ (c ∷ [])) (append-ne-nil a c)
      ∙ ap (λ q. lookup q vs) (sym (append_assoc s a (c ∷ [])))
      ∙ h.0,
  subst (λ q. Leads q (x ∷ cs) d) (sym (append_assoc p a (c ∷ [])))
      (Leads-mirror s p vs d mirror (a ++ (c ∷ [])) (x ∷ cs)
        (subst (λ q. Leads q (x ∷ cs) vs) (append_assoc s a (c ∷ [])) h.1)),
)

cancel : (p r q : FilePath) → (p ++ r == p ++ q) ≡ (r == q)
unfolding list_beq
cancel [] r q = refl
cancel (c ∷ p) r q = rw (eq_refl c) (cancel p r q)

apart_by : (p r q : FilePath) → has_prefix p q ≡ false → (p ++ r == q) ≡ false
apart_by p r q outside = elim (Bool-cases (p ++ r == q)) [
  | inl same ↦
      cc (sym outside ∙ ap (has_prefix p) (sym (eq-eq (p ++ r) q same)) ∙ has_prefix-append p r)
  | inr other ↦ other
]

pub apart_back : (p r q : FilePath) → has_prefix p q ≡ false → (q == p ++ r) ≡ false
apart_back p r q outside = elim (Bool-cases (q == p ++ r)) [
  | inl same ↦ cc (sym outside ∙ ap (has_prefix p) (eq-eq q (p ++ r) same) ∙ has_prefix-append p r)
  | inr other ↦ other
]

-- The same lookups
abbrev Same : Files → Files → Type 0
Same d d' = (q : FilePath) → lookup q d ≡ lookup q d'

insert_twice :
    (k : FilePath) (m n : Node) (d : Files) → Same (insert k n (insert k m d)) (insert k n d)
insert_twice k m n d q = elim (Bool-cases (k == q)) [
  | inl same ↦ rw (lookup-insert k q n (insert k m d), lookup-insert k q n d, same) refl
  | inr other ↦
      rw (lookup-insert k q n (insert k m d), lookup-insert k q n d, lookup-insert k q m d, other)
        refl
]

module _ (vg src dest : Text) (one : IsName vg) (single : IsName src) (a : Text) (p : FilePath)
    (head : components (mount_point vg dest) ≡ a ∷ p) where
  -- One visit puts the entry in its place below the destination, and changes nothing else.
  visit-new :
      (k : FilePath) (n : Node) (vs d : Files)
      → (f : Follows vg src vs k) → Dirs [] (a ∷ p) d
      → lookup (a ∷ p) d ≡ some dir
      → Leads (a ∷ p) (f.first ∷ f.rest) d
      → lookup k d ≡ some n
      → lookup ((a ∷ p) ++ (f.first ∷ f.rest)) d ≡ none
      → (d' : Files) × (visit (mount_point vg src) (mount_point vg dest) (k, n) (quiet d)
          ≡ (ok tt, quiet d'))
        × Same d' (insert ((a ∷ p) ++ (f.first ∷ f.rest)) n d)
  unfolding visit exists
  visit-new k n vs d f home here way held missing = go n held
    where
      des : Text
      des = replace_all (mount_point vg src) (mount_point vg dest) (join_path k)

      at : components des ≡ (a ∷ p) ++ (f.first ∷ f.rest)
      at =
          ap
            (λ q. components (replace_all (mount_point vg src) (mount_point vg dest) (join_path q)))
            f.at
          ∙ ap components (target-rest vg src dest one single f.first f.rest f.absent)
          ∙ components-target vg src dest one single f.first f.rest f.clean
          ∙ ap (λ q. q ++ (f.first ∷ f.rest)) head

      gone : lookup (components des) d ≡ none
      gone = ap (λ q. lookup q d) at ∙ missing

      go :
          (n : Node)
          → lookup k d ≡ some n
          → (d' : Files) × (visit (mount_point vg src) (mount_point vg dest) (k, n) (quiet d)
              ≡ (ok tt, quiet d'))
            × Same d' (insert ((a ∷ p) ++ (f.first ∷ f.rest)) n d)
      go dir e =
          let made = mkdir_all-made des a p f.first f.rest d at home way gone in
          (
            insert (components des) dir d,
            rw gone (make_dir-new des d (insert (components des) dir d) gone made),
            λ q. ap (λ x. lookup q (insert x dir d)) at,
          )
      go (file b) e =
          let source : components (join_path k) ≡ k =
            ap (λ q. components (join_path q)) f.at
            ∙ components-source vg src one single f.first f.rest f.clean
            ∙ sym f.at in
          let above : lookup (parent (components des)) d ≡ some dir =
            ap (λ q. lookup (parent q) d) at ∙ Leads-parent a p f.first f.rest d here way in
          let copied =
            copy_file-new (join_path k) des b d (ap (λ q. lookup q d) source ∙ e) gone above in
          (
            insert (components des) (file b) (insert (components des) (file []) d),
            rw copied refl,
            λ q.
                insert_twice (components des) (file []) (file b) d q
                ∙ ap (λ x. lookup q (insert x (file b) d)) at,
          )

module _ (vg src dest : Text) (one : IsName vg) (single : IsName src) (a : Text) (p : FilePath)
    (head : components (mount_point vg dest) ≡ a ∷ p)
    (apart : (q : FilePath)
      → has_prefix (a ∷ p) (components (mount_point vg src) ++ q) ≡ false) where
  abbrev pub source : FilePath
  source = components (mount_point vg src)

  -- What a visit must find, and leaves to the next
  pub record IsAt (vs es d0 d : Files) : Type 0 where
    pub walk : IsWalk vg src vs es
    pub home : Dirs [] (a ∷ p) d
    pub here : lookup (a ∷ p) d ≡ some dir
    pub mirror : Mirrors source (a ∷ p) vs d
    pub kept :
        (c : Text) (q : FilePath) → lookup (source ++ (c ∷ q)) d ≡ lookup (source ++ (c ∷ q)) d0

  IsAt-next :
      (k : FilePath) (n : Node) (vs es d0 d d' : Files)
      → (f : Follows vg src vs k) → IsWalk vg src (insert k n vs) es
      → IsAt vs ((k, n) ∷ es) d0 d
      → lookup ((a ∷ p) ++ (f.first ∷ f.rest)) d ≡ none
      → Same d' (insert ((a ∷ p) ++ (f.first ∷ f.rest)) n d)
      → IsAt (insert k n vs) es d0 d'
  IsAt-next k n vs es d0 d d' f walk s missing same = record {
    walk = walk;
    home = Dirs-kept [] (a ∷ p) d d' keep s.home;
    here = keep (a ∷ p) s.here;
    mirror = λ q h. same ((a ∷ p) ++ q) ∙ lookup-insert put_at ((a ∷ p) ++ q) n d ∙ moved q h;
    kept = λ c q.
        same (source ++ (c ∷ q))
        ∙ lookup-insert put_at (source ++ (c ∷ q)) n d
        ∙ rw (apart_by (a ∷ p) (f.first ∷ f.rest) (source ++ (c ∷ q)) (apart (c ∷ q))) (s.kept c q);
  }
    where
      put_at : FilePath
      put_at = (a ∷ p) ++ (f.first ∷ f.rest)

      keep : (q : FilePath) → lookup q d ≡ some dir → lookup q d' ≡ some dir
      keep q h = elim (Bool-cases (put_at == q)) [
        | inl at ↦ absurd (cc (sym missing ∙ ap (λ x. lookup x d) (eq-eq put_at q at) ∙ h))
        | inr other ↦ same q ∙ lookup-insert put_at q n d ∙ rw other h
      ]

      moved :
          (q : FilePath)
          → q ≢ []
          → (if put_at == (a ∷ p) ++ q then some n else lookup ((a ∷ p) ++ q) d)
            ≡ lookup (source ++ q) (insert k n vs)
      moved q h =
          ap (λ x. if x then some n else lookup ((a ∷ p) ++ q) d)
            (cancel (a ∷ p) (f.first ∷ f.rest) q)
          ∙ ap (λ x. if f.first ∷ f.rest == q then some n else x) (s.mirror q h)
          ∙ ap (λ x. if x then some n else lookup (source ++ q) vs)
              (sym (cancel source (f.first ∷ f.rest) q))
          ∙ ap (λ x. if x == source ++ q then some n else lookup (source ++ q) vs) (sym f.at)
          ∙ sym (lookup-insert k (source ++ q) n vs)

  -- The walk mirrors its entries below the destination.
  pub visit_all-Mirrors :
      (es vs d0 d : Files)
      → IsAt vs es d0 d
      → HeldIn es d0
      → (d' : Files) × (visit_all (mount_point vg src) (mount_point vg dest) es (quiet d)
          ≡ (ok tt, quiet d'))
        × Mirrors source (a ∷ p) (replay vs es) d'
  unfolding visit_all replay
  visit_all-Mirrors [] vs d0 d s held = (d, refl, s.mirror)
  visit_all-Mirrors ((k, n) ∷ es) vs d0 d s held =
      let f = s.walk.0 in
      let missing : lookup ((a ∷ p) ++ (f.first ∷ f.rest)) d ≡ none =
        s.mirror (f.first ∷ f.rest) (λ e. cc) ∙ ap (λ q. lookup q vs) (sym f.at) ∙ f.new in
      let way : Leads (a ∷ p) (f.first ∷ f.rest) d =
        subst (λ q. Leads q (f.first ∷ f.rest) d) (append-nil (a ∷ p))
          (Leads-mirror source (a ∷ p) vs d s.mirror [] (f.first ∷ f.rest)
            (subst (λ q. Leads q (f.first ∷ f.rest) vs) (sym (append-nil source)) f.way)) in
      let there : lookup k d ≡ some n =
        ap (λ q. lookup q d) f.at
        ∙ s.kept f.first f.rest
        ∙ ap (λ q. lookup q d0) (sym f.at)
        ∙ held.0 in
      let (d1, e1, same) =
        visit-new vg src dest one single a p head k n vs d f s.home s.here way there missing in
      let (d2, e2, mirror) =
        visit_all-Mirrors es (insert k n vs) d0 d1
          (IsAt-next k n vs es d0 d d1 f s.walk.1 s missing same) held.1 in
      (d2, rw (e1, e2) refl, mirror)
