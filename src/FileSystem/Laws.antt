-- ===== src/FileSystem/Laws.antt =====
-- What the updates of the tree do to a lookup.
use csi_hostpath.Base.{
  refl, ◌⊎◌, ◌≢◌, ◌∙◌, sym, ap, subst, Bool, Option, ◌++◌, eq_refl, has_prefix_split,
  has_prefix-append, append_assoc, ◌≡◌, true, false, none, some, [], ◌∷◌, arith, ◌==◌, nat_eq,
  list_eq, has_prefix, if◌then◌else◌, eq-eq, list_beq_iff, Bool-cases, inl, inr,
}
use csi_hostpath.Base.Dict.{lookup, lookup-insert, lookup-insert_self}
use csi_hostpath.FileSystem.{FilePath, Node, dir, Files, World, find, put, erase_below}

-- Below the path nothing is left, and all else is as before.
pub lookup-erase_below :
    (p q : FilePath) (d : Files)
    → lookup q (erase_below p d) ≡ (if has_prefix p q then none else lookup q d)
unfolding lookup erase_below
lookup-erase_below p q [] = ground arith
lookup-erase_below p q ((k, n) ∷ d) = elim (Bool-cases (k == q)) [
  | inl same ↦ rw (eq-eq k q same) (ground (arith, lookup-erase_below p q d, list_beq_iff q q))
  | inr differ ↦ ground (arith, lookup-erase_below p q d)
]

-- What a call that works below `p` may do to another path `q`: it keeps what it holds, or it was
-- missing, lies on the way to `p`, and is a directory now.
abbrev pub Kept : FilePath → FilePath → Option Node → Option Node → Type 0
Kept p q old new = (new ≡ old) ⊎ ((old ≡ none) × (new ≡ some dir) × (has_prefix q p ≡ true))

pub Kept_trans : (p q : FilePath) (a b c : Option Node) → Kept p q a b → Kept p q b c → Kept p q a c
Kept_trans p q a b c (inl ab) (inl bc) = inl (bc ∙ ab)
Kept_trans p q a b c (inr (missing, made, way)) (inl bc) = inr (missing, bc ∙ made, way)
Kept_trans p q a b c (inl ab) (inr (missing, made, way)) = inr (sym ab ∙ missing, made, way)
Kept_trans p q a b c (inr (m1, d1, w1)) (inr (m2, d2, w2)) = inr (m1, d2, w1)

-- Where `q` is not on the way, nothing happens to it.
pub Kept-aside :
    (p q : FilePath) (a b : Option Node) → has_prefix q p ≡ false → Kept p q a b → b ≡ a
Kept-aside p q a b aside (inl same) = same
Kept-aside p q a b aside (inr (missing, made, way)) = cc

pub Kept-dir : (p q : FilePath) (a b : Option Node) → Kept p q a b → a ≡ some dir → b ≡ some dir
Kept-dir p q a b (inl same) h = same ∙ h
Kept-dir p q a b (inr (missing, made, way)) h = made

-- Two paths that lead to a third are on the way to one another.
pub has_prefix-comparable :
    (q p t : FilePath)
    → has_prefix q t ≡ true
    → has_prefix p t ≡ true
    → has_prefix p q ≡ false
    → has_prefix q p ≡ true
unfolding has_prefix
has_prefix-comparable [] p t a b c = refl
has_prefix-comparable (x ∷ q) [] t a b c = cc
has_prefix-comparable (x ∷ q) (y ∷ p) [] a b c = cc
has_prefix-comparable (x ∷ q) (y ∷ p) (z ∷ t) a b c =
    ground (arith, eq-eq x z, eq-eq y z, eq_refl x, eq_refl z, has_prefix-comparable q p t)

-- What is below a path that lies below `p` lies below `p`.
pub has_prefix_trans :
    (p c q : FilePath) → has_prefix p c ≡ true → has_prefix p q ≡ false → has_prefix c q ≡ false
has_prefix_trans p c q inside outside = go (has_prefix c q) refl
  where
    go : (b : Bool) → has_prefix c q ≡ b → b ≡ false
    go false e = refl
    go true e =
        let (r, pc) = has_prefix_split p c inside in
        let (s, cq) = has_prefix_split c q e in
        let whole : q ≡ p ++ (r ++ s) = cq ∙ ap (λ x. x ++ s) pc ∙ append_assoc p r s in
        cc (outside, whole, has_prefix-append p (r ++ s))

-- The same for a narrower path
pub Kept-wider :
    (p c q : FilePath) (a b : Option Node)
    → has_prefix p c ≡ true
    → has_prefix p q ≡ false
    → Kept c q a b
    → Kept p q a b
Kept-wider p c q a b inside outside (inl same) = inl same
Kept-wider p c q a b inside outside (inr (missing, made, way)) =
    inr (missing, made, has_prefix-comparable q p c way inside outside)

-- A write below `p` leaves what is not below `p`.
pub find-put_outside :
    (p c q : FilePath) (m : Node) (w : World)
    → has_prefix p c ≡ true
    → has_prefix p q ≡ false
    → find q (put c m w) ≡ find q w
find-put_outside p c q m w inside outside = elim (Bool-cases (c == q)) [
  | inl same ↦ absurd (differ (eq-eq c q same))
  | inr no_match ↦ rw (lookup-insert c q m w.files, no_match)
]
  where
    differ : c ≢ q
    differ e = cc

-- A directory made on the way to a place below `p`, where nothing was.
pub find-put_missing :
    (p c q t : FilePath) (w : World)
    → find c w ≡ none
    → has_prefix c t ≡ true
    → has_prefix p t ≡ true
    → has_prefix p q ≡ false
    → Kept p q (find q w) (find q (put c dir w))
find-put_missing p c q t w missing way inside outside = elim (Bool-cases (c == q)) [
  | inl same ↦
      let e = eq-eq c q same in
      inr (
        subst (λ x. find x w ≡ none) e missing,
        subst (λ x. find x (put c dir w) ≡ some dir) e (lookup-insert_self c dir w.files),
        has_prefix-comparable q p t (subst (λ x. has_prefix x t ≡ true) e way) inside outside,
      )
  | inr differ ↦ inl (rw (lookup-insert c q dir w.files, differ))
]

pub find-erase_outside :
    (c q : FilePath) (w : World)
    → has_prefix c q ≡ false
    → find q (record w { files = erase_below c w.files }) ≡ find q w
find-erase_outside c q w outside = rw (lookup-erase_below c q w.files, outside)
