-- ===== src/FileSystem/Unique.antt =====
-- A tree has at most one node at a path, and no call changes that.
use csi_hostpath.Base.{
  ◌≡◌, refl, sym, ap, ◌∙◌, subst, Bool, true, false, Option, none, some, [], ◌∷◌, ◌++◌, Text,
  Outcome, ok, err, panic, pure, fail, ◌>>=◌, ◌>>◌, attempt, map_err, continue, inl, inr,
  Bool-cases, ◌==◌, nat_eq, list_eq, eq-eq, eq_refl, has_prefix, if◌then◌else◌,
}
use csi_hostpath.Base.Dict.{lookup, insert, lookup-insert}
use csi_hostpath.FileSystem.{
  is_some, exists, FilePath, Node, dir, file, Files, World, Fault, Os, find, system_call,
  erase_below, components, make_one, mkdir_from, mkdir_all, open_existing, create_in, open_file,
  write_over, write_string, remove_found, is_empty, children, os_remove, remove_all, os_open,
  read_all, opened, bytes_of,
}
use csi_hostpath.FileSystem.Laws.{lookup-erase_below}
use csi_hostpath.FileSystem.Preserves.{system_call-cases}

abbrev pub IsUnique : Files → Type 0
IsUnique [] = Unit
IsUnique ((k, n) ∷ d) = (lookup k d ≡ none) × IsUnique d

differ_sym : (j k : FilePath) → (j == k) ≡ false → (k == j) ≡ false
differ_sym j k h = elim (Bool-cases (k == j)) [
  | inl e ↦ cc (sym h ∙ ap (λ x. j == x) (eq-eq k j e) ∙ eq_refl j)
  | inr e ↦ e
]

pub insert-IsUnique : (k : FilePath) (n : Node) (d : Files) → IsUnique d → IsUnique (insert k n d)
unfolding insert lookup
insert-IsUnique k n [] u = (refl, tt)
insert-IsUnique k n ((j, m) ∷ d) u = elim (Bool-cases (j == k)) [
  | inl same ↦ rw same (subst (λ x. lookup x d ≡ none) (eq-eq j k same) u.0, u.1)
  | inr other ↦
      rw other (lookup-insert k j n d ∙ rw (differ_sym j k other) u.0, insert-IsUnique k n d u.1)
]

pub erase_below-IsUnique : (p : FilePath) (d : Files) → IsUnique d → IsUnique (erase_below p d)
unfolding erase_below
erase_below-IsUnique p [] u = tt
erase_below-IsUnique p ((k, n) ∷ d) u = elim (Bool-cases (has_prefix p k)) [
  | inl below ↦ rw below (erase_below-IsUnique p d u.1)
  | inr beside ↦ rw beside (lookup-erase_below p k d ∙ rw beside u.0, erase_below-IsUnique p d u.1)
]

pub record KeepsUnique {A : Type 0} (m : Os A) : Type 0 where
  pub at : (w : World) → IsUnique w.files → IsUnique (m w).1.files

module _ {A : Type 0} where
  pub KeepsUnique-pure : (a : A) → KeepsUnique (pure a)
  KeepsUnique-pure a = record { at = λ w u. u }

  KeepsUnique-fail : (e : Text) → KeepsUnique (fail {A = A} e)
  KeepsUnique-fail e = record { at = λ w u. u }

  pub KeepsUnique-attempt : (m : Os A) → KeepsUnique m → KeepsUnique (attempt m)
  KeepsUnique-attempt m k = record { at = k.at }

  pub KeepsUnique-map_err : (g : Text → Text) (m : Os A) → KeepsUnique m → KeepsUnique (map_err g m)
  KeepsUnique-map_err g m k = record { at = k.at }

  pub KeepsUnique-if :
      (b : Bool) (m n : Os A) → KeepsUnique m → KeepsUnique n → KeepsUnique (if b then m else n)
  KeepsUnique-if true m n km kn = km
  KeepsUnique-if false m n km kn = kn

  pub KeepsUnique-system_call :
      (bad : Fault → Os A) (good : Os A)
      → ((f : Fault) → KeepsUnique (bad f))
      → KeepsUnique good
      → KeepsUnique (system_call bad good)
  KeepsUnique-system_call bad good kb kg = record {
    at = λ w u. elim (system_call-cases bad good w) [
      | inl (f, w', e, same) ↦ rw e ((kb f).at w' (subst IsUnique (sym same) u))
      | inr (w', e, same) ↦ rw e (kg.at w' (subst IsUnique (sym same) u))
    ];
  }

  -- What depends on what is found at a path
  KeepsUnique-found :
      (c : FilePath) (g : Option Node → Os A)
      → ((o : Option Node) → KeepsUnique (g o))
      → KeepsUnique (λ w. g (find c w) w)
  KeepsUnique-found c g k = record { at = λ w. (k (find c w)).at w }

module _ {A B : Type 0} where
  pub KeepsUnique-bind :
      (m : Os A) (f : A → Os B)
      → KeepsUnique m
      → ((a : A) → KeepsUnique (f a))
      → KeepsUnique (m >>= f)
  KeepsUnique-bind m f km kf = record { at = λ w u. go (m w).0 (m w).1 (km.at w u) }
    where
      go : (r : Outcome Text A) (w : World) → IsUnique w.files → IsUnique (continue r f w).1.files
      go (ok a) w u = (kf a).at w u
      go (err x) w u = u
      go panic w u = u

  pub KeepsUnique-then :
      (m : Os A) (k : Os B) → KeepsUnique m → KeepsUnique k → KeepsUnique (m >> k)
  KeepsUnique-then m k km kk = KeepsUnique-bind m _ km (λ _. kk)

-- A step that changes the tree
KeepsUnique-step :
    (f : Files → Files)
    → ((d : Files) → IsUnique d → IsUnique (f d))
    → KeepsUnique (λ w. pure tt (record w { files = f w.files }))
KeepsUnique-step f k = record { at = λ w. k w.files }

module _ (t : Text) where
  pub KeepsUnique-os_open : KeepsUnique (os_open t)
  unfolding os_open
  KeepsUnique-os_open =
      KeepsUnique-system_call _ _ (λ f. KeepsUnique-fail _)
        (KeepsUnique-found (components t) (opened t) each)
    where
      each : (o : Option Node) → KeepsUnique (opened t o)
      each none = KeepsUnique-fail _
      each (some n) = KeepsUnique-pure tt

  pub KeepsUnique-read_all : KeepsUnique (read_all t)
  unfolding read_all
  KeepsUnique-read_all =
      KeepsUnique-system_call _ _ (λ f. KeepsUnique-fail _)
        (KeepsUnique-found (components t) (bytes_of t) each)
    where
      each : (o : Option Node) → KeepsUnique (bytes_of t o)
      each none = KeepsUnique-fail _
      each (some dir) = KeepsUnique-fail _
      each (some (file b)) = KeepsUnique-pure b

  KeepsUnique-make_one : (p : FilePath) → KeepsUnique (λ w. make_one t p (find p w) w)
  KeepsUnique-make_one p = KeepsUnique-found p (make_one t p) each
    where
      each : (o : Option Node) → KeepsUnique (make_one t p o)
      each none =
          KeepsUnique-system_call _ _ (λ f. KeepsUnique-fail _)
            (KeepsUnique-step (insert p dir) (insert-IsUnique p dir))
      each (some dir) = KeepsUnique-pure tt
      each (some (file b)) = KeepsUnique-fail _

  KeepsUnique-mkdir_from : (above cs : FilePath) → KeepsUnique (mkdir_from t above cs)
  unfolding mkdir_from
  KeepsUnique-mkdir_from above [] = KeepsUnique-pure tt
  KeepsUnique-mkdir_from above (c ∷ cs) =
      KeepsUnique-then _ _ (KeepsUnique-make_one (above ++ (c ∷ [])))
        (KeepsUnique-mkdir_from (above ++ (c ∷ [])) cs)

  pub KeepsUnique-mkdir_all : KeepsUnique (mkdir_all t)
  unfolding mkdir_all
  KeepsUnique-mkdir_all = KeepsUnique-mkdir_from [] (components t)

  KeepsUnique-create_in : (p : FilePath) (o : Option Node) → KeepsUnique (create_in t p o)
  KeepsUnique-create_in p none = KeepsUnique-fail _
  KeepsUnique-create_in p (some dir) =
      KeepsUnique-step (insert p (file [])) (insert-IsUnique p (file []))
  KeepsUnique-create_in p (some (file b)) = KeepsUnique-fail _

  pub KeepsUnique-open_file : (trunc : Bool) → KeepsUnique (open_file t trunc)
  unfolding open_file
  KeepsUnique-open_file trunc =
      KeepsUnique-system_call _ _ (λ f. KeepsUnique-fail _)
        (KeepsUnique-found (components t) (open_existing t (components t) trunc) (each trunc))
    where
      each : (b : Bool) (o : Option Node) → KeepsUnique (open_existing t (components t) b o)
      each true none =
          KeepsUnique-found _ (create_in t (components t)) (KeepsUnique-create_in (components t))
      each false none =
          KeepsUnique-found _ (create_in t (components t)) (KeepsUnique-create_in (components t))
      each true (some dir) = KeepsUnique-fail _
      each false (some dir) = KeepsUnique-fail _
      each true (some (file b)) =
          KeepsUnique-step (insert (components t) (file []))
            (insert-IsUnique (components t) (file []))
      each false (some (file b)) = KeepsUnique-pure tt

  pub KeepsUnique-exists : KeepsUnique (exists t)
  unfolding exists
  KeepsUnique-exists =
      KeepsUnique-system_call _ _ (λ f. KeepsUnique-pure _)
        (KeepsUnique-found (components t) (λ o. pure (is_some o))
          (λ o. KeepsUnique-pure (is_some o)))

  write_over-IsUnique :
      (b : Text) (o : Option Node) (w : World)
      → IsUnique w.files
      → IsUnique (write_over (components t) b o w).files
  write_over-IsUnique b none w u = u
  write_over-IsUnique b (some dir) w u = u
  write_over-IsUnique b (some (file old)) w u = insert-IsUnique (components t) _ w.files u

  pub KeepsUnique-write_string : (b : Text) → KeepsUnique (write_string t b)
  unfolding write_string
  KeepsUnique-write_string b =
      KeepsUnique-system_call _ _
        (λ f. record { at = λ w. write_over-IsUnique _ (find (components t) w) w })
        (record { at = λ w. write_over-IsUnique b (find (components t) w) w })

  KeepsUnique-erase :
      KeepsUnique (λ w. pure tt (record w { files = erase_below (components t) w.files }))
  KeepsUnique-erase =
      KeepsUnique-step (erase_below (components t)) (erase_below-IsUnique (components t))

  pub KeepsUnique-os_remove : KeepsUnique (os_remove t)
  unfolding os_remove
  KeepsUnique-os_remove =
      KeepsUnique-system_call _ _ (λ f. KeepsUnique-fail _)
        (KeepsUnique-found (components t) (remove_found t) each)
    where
      gone :
          (b : Bool) (e : Text) (w : World)
          → IsUnique w.files
          → IsUnique
              (if b
                then pure tt (record w { files = erase_below (components t) w.files })
                else fail {A = Unit {0}} e w).1.files
      gone true e w u = erase_below-IsUnique (components t) w.files u
      gone false e w u = u

      each : (o : Option Node) → KeepsUnique (remove_found t o)
      each none = KeepsUnique-fail _
      each (some (file b)) = KeepsUnique-erase
      each (some dir) = record { at = λ w. gone (is_empty (children (components t) w.files)) _ w }

  pub KeepsUnique-remove_all : KeepsUnique (remove_all t)
  unfolding remove_all
  KeepsUnique-remove_all = KeepsUnique-system_call _ _ (λ f. KeepsUnique-fail _) KeepsUnique-erase
