-- ===== src/Base/Lists.antt =====
-- Text as a list of bytes, and the functions of Go's `strings` that the program calls.
use Prim.Native.Char.{code}
use Prim.Native.Nat.{ℕ, zero, suc, ◌+◌, ◌≤◌}
use Prim.Native.String.{String}
use mathlib.Core.Path.{◌≡◌, refl, sym, ap, ◌∙◌}
use mathlib.Core.Bool.{Bool, true, false, ◌&&◌, ◌||◌}
use mathlib.Core.Logic.{inl, inr}
use mathlib.Core.List.{List, [], ◌∷◌, ◌++◌}
use native.Mathlib.Omega.{arith}
use csi_hostpath.Base.Tests.{leb, Eq, ◌==◌, nat_eq, if◌then◌else◌, eq_refl, Bool-cases}

-- A Go string is its bytes.
abbrev pub Text : Type 0
Text = List ℕ

abbrev codes : String → Text
codes String.[] = []
codes (String.◌∷◌ c s) = code c ∷ codes s

-- A literal. It stays shut in proofs, and runs in tests.
unfoldable pub text : String → Text
text s = codes s

module _ {ℓ} {A : Type ℓ} where
  abbrev pub length : List A → ℕ
  length [] = 0
  length (x ∷ xs) = suc (length xs)

  abbrev pub take : ℕ → List A → List A
  take zero xs = []
  take (suc n) [] = []
  take (suc n) (x ∷ xs) = x ∷ take n xs

  abbrev pub drop : ℕ → List A → List A
  drop zero xs = xs
  drop (suc n) [] = []
  drop (suc n) (x ∷ xs) = drop n xs

  pub length-append : (xs ys : List A) → length (xs ++ ys) ≡ length xs + length ys
  length-append [] ys = omega arith
  length-append (x ∷ xs) ys = omega (arith, length-append xs ys)

  pub drop-append : (xs ys : List A) → drop (length xs) (xs ++ ys) ≡ ys
  drop-append [] ys = refl
  drop-append (x ∷ xs) ys = drop-append xs ys

  pub drop_all : (n : ℕ) (xs : List A) → length xs ≤ n → drop n xs ≡ []
  drop_all zero [] h = refl
  drop_all (suc n) [] h = refl
  drop_all zero (x ∷ xs) h = absurd (omega arith)
  drop_all (suc n) (x ∷ xs) h = drop_all n xs (omega arith)

module _ {ℓ} {A : Type ℓ} ⦃e : Eq A⦄ where
  -- `strings.HasPrefix(xs, ps)`, the prefix first
  unfoldable pub has_prefix : List A → List A → Bool
  has_prefix [] xs = true
  has_prefix (p ∷ ps) [] = false
  has_prefix (p ∷ ps) (x ∷ xs) = p == x && has_prefix ps xs

  pub has_prefix-append : (ps xs : List A) → has_prefix ps (ps ++ xs) ≡ true
  unfolding has_prefix
  has_prefix-append [] xs = refl
  has_prefix-append (p ∷ ps) xs = rw (eq_refl p) (has_prefix-append ps xs)

  pub has_prefix_refl : (xs : List A) → has_prefix xs xs ≡ true
  unfolding has_prefix
  has_prefix_refl [] = refl
  has_prefix_refl (x ∷ xs) = rw (eq_refl x) (has_prefix_refl xs)

  -- A prefix is what the list begins with.
  pub has_prefix_split :
      (ps xs : List A) → has_prefix ps xs ≡ true → (rest : List A) × (xs ≡ ps ++ rest)
  unfolding has_prefix
  has_prefix_split [] xs h = (xs, refl)
  has_prefix_split (p ∷ ps) [] h = cc
  has_prefix_split (p ∷ ps) (x ∷ xs) h =
      let (rest, q) = has_prefix_split ps xs (ground arith) in (rest, ground (arith, e.beq_iff p x))

  pub has_prefix_cancel : (xs ps qs : List A) → has_prefix (xs ++ ps) (xs ++ qs) ≡ has_prefix ps qs
  unfolding has_prefix
  has_prefix_cancel [] ps qs = refl
  has_prefix_cancel (x ∷ xs) ps qs = rw (eq_refl x) (has_prefix_cancel xs ps qs)

  -- `strings.Contains(xs, ps)`
  unfoldable pub contains : List A → List A → Bool
  unfolding has_prefix
  contains ps [] = has_prefix ps []
  contains ps (x ∷ xs) = has_prefix ps (x ∷ xs) || contains ps xs

  -- `strings.Replace(xs, old, new, -1)` for a nonempty `old`: `skip` counts what is left to pass
  -- over of an occurrence that has been replaced.
  unfoldable pub replace_from : List A → List A → ℕ → List A → List A
  unfolding has_prefix
  replace_from old new skip [] = []
  replace_from old new zero (x ∷ xs) =
      let hit = new ++ replace_from old new (length (drop 1 old)) xs in
      let miss = x ∷ replace_from old new zero xs in if has_prefix old (x ∷ xs) then hit else miss
  replace_from old new (suc k) (x ∷ xs) = replace_from old new k xs

  abbrev pub replace_all : List A → List A → List A → List A
  replace_all old new xs = replace_from old new zero xs

  replace_from_skip :
      (old new done rest : List A)
      → replace_from old new (length done) (done ++ rest) ≡ replace_from old new zero rest
  unfolding replace_from
  replace_from_skip old new [] rest = refl
  replace_from_skip old new (x ∷ done) rest = replace_from_skip old new done rest

  -- An occurrence at the beginning is replaced, and the search goes on behind it.
  pub replace_all-append :
      (c : A) (old new rest : List A)
      → replace_all (c ∷ old) new ((c ∷ old) ++ rest) ≡ new ++ replace_all (c ∷ old) new rest
  unfolding replace_from
  replace_all-append c old new rest =
      rw (has_prefix-append (c ∷ old) rest, replace_from_skip (c ∷ old) new old rest)

  -- Where both texts begin with `c`, so does what becomes of a text that does.
  pub replace_all-head :
      (c : A) (old new rest : List A)
      → (x : List A) × (replace_all (c ∷ old) (c ∷ new) (c ∷ rest) ≡ c ∷ x)
  unfolding replace_from
  replace_all-head c old new rest = elim (Bool-cases (has_prefix (c ∷ old) (c ∷ rest))) [
    | inl hit ↦ (new ++ replace_from (c ∷ old) (c ∷ new) (length old) rest, rw hit)
    | inr miss ↦ (replace_from (c ∷ old) (c ∷ new) zero rest, rw miss)
  ]

  -- Where nothing occurs, nothing is replaced.
  pub replace_all-absent :
      (old new xs : List A) → contains old xs ≡ false → replace_all old new xs ≡ xs
  unfolding replace_from contains
  replace_all-absent old new [] h = refl
  replace_all-absent old new (x ∷ xs) h = elim (Bool-cases (has_prefix old (x ∷ xs))) [
    | inl hit ↦ absurd (cc (h, ap (λ b. b || contains old xs) hit))
    | inr miss ↦
        let later : contains old xs ≡ false = sym (ap (λ b. b || contains old xs) miss) ∙ h in
        rw miss (ap (λ r. x ∷ r) (replace_all-absent old new xs later))
  ]

  -- `strings.Replace(xs, old, new, 1)`
  unfoldable pub replace_first : List A → List A → List A → List A
  unfolding has_prefix
  replace_first old new [] = if has_prefix old [] then new else []
  replace_first old new (x ∷ xs) =
      let miss = x ∷ replace_first old new xs in
      if has_prefix old (x ∷ xs) then new ++ drop (length old) (x ∷ xs) else miss

-- `strings.ToLower` of a text of ASCII characters; of other characters, those that have a lower case stay
-- as they are here.
unfoldable pub lower : ℕ → ℕ
lower c = if leb b'A' c && leb c b'Z' then c + 32 else c

unfoldable pub to_lower : Text → Text
unfolding lower
to_lower [] = []
to_lower (c ∷ s) = lower c ∷ to_lower s

lower_idem : (c : ℕ) → lower (lower c) ≡ lower c
unfolding lower
lower_idem c = ground arith

pub to_lower_idem : (s : Text) → to_lower (to_lower s) ≡ to_lower s
unfolding to_lower
to_lower_idem [] = refl
to_lower_idem (c ∷ s) = cc (lower_idem c, to_lower_idem s)
