-- ===== src/FileSystem/Frame.antt =====
-- The system calls that write: each leaves alone what is not below its path, fault or not.
use csi_hostpath.Base.{
  refl, ap, sym, ◌∙◌, append_assoc, has_prefix-append, ◌≡◌, Bool, true, false, Option, none, some,
  [], ◌∷◌, ◌++◌, Text, arith, has_prefix, nat_eq, list_eq, Option-cases, inl, inr,
}
use csi_hostpath.FileSystem.{
  FilePath, components, Node, dir, file, World, find, system_call, mkdir_from, mkdir_all, open_file,
  write_string, write_over, make_one, os_remove, remove_all, overlay,
}
use csi_hostpath.FileSystem.Laws.{
  find-put_outside, find-put_missing, find-erase_outside, has_prefix_trans,
}
use csi_hostpath.FileSystem.Preserves.{
  Preserves, Preserves-pure, Preserves-fail, Preserves-system_call, Preserves-then,
}

find-write_over :
    (p c q : FilePath) (b : Text) (w : World) (found : Option Node)
    → has_prefix p c ≡ true
    → has_prefix p q ≡ false
    → find q (write_over c b found w) ≡ find q w
find-write_over p c q b w (some (file old)) inside o =
    find-put_outside p c q (file (overlay b old)) w inside o
find-write_over p c q b w (some dir) inside o = refl
find-write_over p c q b w none inside o = refl

module _ {p : FilePath} where
  -- A directory is made only where nothing is.
  Preserves-make_one :
      (t : Text) (c g : FilePath)
      → has_prefix c g ≡ true
      → has_prefix p g ≡ true
      → Preserves p (λ w. make_one t c (find c w) w)
  unfolding system_call
  Preserves-make_one t c g way inside = record {
    at = λ w q o. elim (Option-cases (find c w)) [
      | inl missing ↦ rw missing (ground (arith, find-put_missing p c q g w missing way inside o))
      | inr (x, e) ↦ rw e (ground arith)
    ];
  }

  Preserves-mkdir_from :
      (t : Text) (above cs g : FilePath)
      → g ≡ above ++ cs
      → has_prefix p g ≡ true
      → Preserves p (mkdir_from t above cs)
  unfolding mkdir_from
  Preserves-mkdir_from t above [] g e inside = Preserves-pure tt
  Preserves-mkdir_from t above (c ∷ cs) g e inside =
      let at : g ≡ (above ++ (c ∷ [])) ++ cs = e ∙ sym (append_assoc above (c ∷ []) cs) in
      let way : has_prefix (above ++ (c ∷ [])) g ≡ true =
        ap (has_prefix (above ++ (c ∷ []))) at ∙ has_prefix-append (above ++ (c ∷ [])) cs in
      Preserves-then _ _ (Preserves-make_one t (above ++ (c ∷ [])) g way inside)
        (Preserves-mkdir_from t (above ++ (c ∷ [])) cs g at inside)

  pub Preserves-mkdir_all :
      (t : Text) → has_prefix p (components t) ≡ true → Preserves p (mkdir_all t)
  unfolding mkdir_all
  Preserves-mkdir_all t inside = Preserves-mkdir_from t [] (components t) (components t) refl inside

  pub Preserves-open_file :
      (t : Text) (trunc : Bool)
      → has_prefix p (components t) ≡ true
      → Preserves p (open_file t trunc)
  unfolding open_file
  Preserves-open_file t trunc inside =
      Preserves-system_call _ _ (λ f. Preserves-fail _)
        (record {
          at = λ w q o.
              inl (ground (arith, find-put_outside p (components t) q (file []) w inside o));
        })

  pub Preserves-write_string :
      (t b : Text) → has_prefix p (components t) ≡ true → Preserves p (write_string t b)
  unfolding write_string
  Preserves-write_string t b inside =
      Preserves-system_call _ _
        (λ e. record { at = λ w q o. inl (find-write_over p (components t) q _ w _ inside o) })
        (record { at = λ w q o. inl (find-write_over p (components t) q _ w _ inside o) })

  pub Preserves-os_remove :
      (t : Text) → has_prefix p (components t) ≡ true → Preserves p (os_remove t)
  unfolding os_remove
  Preserves-os_remove t inside =
      Preserves-system_call _ _ (λ f. Preserves-fail _)
        (record {
          at = λ w q o. inl (
              ground (
                arith,
                find-erase_outside (components t) q w
                    (has_prefix_trans p (components t) q inside o),
              ));
        })

  pub Preserves-remove_all :
      (t : Text) → has_prefix p (components t) ≡ true → Preserves p (remove_all t)
  unfolding remove_all
  Preserves-remove_all t inside =
      Preserves-system_call _ _ (λ f. Preserves-fail _)
        (record {
          at = λ w q o. inl (
              find-erase_outside (components t) q w (has_prefix_trans p (components t) q inside o));
        })
