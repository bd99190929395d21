-- ===== src/Tests/Plain.antt =====
-- A concrete codec: a text is written with its characters shifted by one and a 0 behind them, and the
-- tags are left out.
use csi_hostpath.Base.{
  ℕ, zero, suc, ◌<◌, ◌≡◌, refl, ap, ◌∙◌, sym, Option, none, some, [], ◌∷◌, ◌++◌, Text, Outcome, ok,
  err, length, drop, arith, append-nil,
}
use csi_hostpath.Volume.{Vol}
use csi_hostpath.Volume.Codec.{Codec, IsLawful}

unfoldable pub enc : Text → Text → Text
enc [] rest = zero ∷ rest
enc (c ∷ t) rest = suc c ∷ enc t rest

unfoldable pub add : ℕ → Option (Text × Text) → Option (Text × Text)
add c none = none
add c (some (t, rest)) = some (c ∷ t, rest)

unfoldable pub field : Text → Option (Text × Text)
unfolding add
field [] = none
field (zero ∷ rest) = some ([], rest)
field (suc c ∷ rest) = add c (field rest)

unfoldable pub number : Text → Option (ℕ × Text)
number [] = none
number (n ∷ rest) = some (n, rest)

unfoldable pub then : {A : Type 0} → Option A → (A → Outcome Text Vol) → Outcome Text Vol
then none f = err []
then (some a) f = f a

unfoldable pub finish : Vol → Text → Outcome Text Vol
finish v [] = ok v
finish v (x ∷ xs) = err []

unfoldable pub encode : Vol → Text
unfolding enc
encode v =
    enc v.name (v.size ∷ enc v.vg_name (enc v.status (enc v.snapshot_name (enc v.clone_name []))))

unfoldable pub decode : Text → Outcome Text Vol
unfolding then field number finish
decode b = then (field b) λ name. then (number name.1) λ size. then (field size.1) λ vg_name.
    then (field vg_name.1) λ status. then (field status.1) λ snapshot.
      then (field snapshot.1) λ clone.
        finish
          (record {
            name = name.0;
            size = size.0;
            tags = [];
            vg_name = vg_name.0;
            status = status.0;
            snapshot_name = snapshot.0;
            clone_name = clone.0;
          })
          clone.1

unfoldable pub plain : Codec
unfolding encode decode
plain = record { marshal = encode; unmarshal = decode; IsEncodable = λ v. v.tags ≡ [] }

field-enc : (t rest : Text) → field (enc t rest) ≡ some (t, rest)
unfolding field enc add
field-enc [] rest = refl
field-enc (c ∷ t) rest = rw (field-enc t rest)

enc-append : (t r rest : Text) → enc t r ++ rest ≡ enc t (r ++ rest)
unfolding enc
enc-append [] r rest = refl
enc-append (c ∷ t) r rest = ap (λ x. suc c ∷ x) (enc-append t r rest)

field-enc-append : (t r rest : Text) → field (enc t r ++ rest) ≡ some (t, r ++ rest)
field-enc-append t r rest = ap field (enc-append t r rest) ∙ field-enc t (r ++ rest)

decode-encode :
    (v : Vol) (rest : Text) → decode (encode v ++ rest) ≡ finish (record v { tags = [] }) rest
unfolding decode encode then number
decode-encode v rest = rw (
  field-enc-append v.name _ rest,
  field-enc-append v.vg_name _ rest,
  field-enc-append v.status _ rest,
  field-enc-append v.snapshot_name _ rest,
  field-enc-append v.clone_name [] rest,
)

drop_within : (n : ℕ) (xs : Text) → n < length xs → (y : ℕ) × (ys : Text) × (drop n xs ≡ y ∷ ys)
drop_within n [] h = absurd (omega arith)
drop_within zero (x ∷ xs) h = (x, xs, refl)
drop_within (suc n) (x ∷ xs) h = drop_within n xs (omega arith)

pub plain-IsLawful : IsLawful plain
unfolding plain finish decode encode field then
plain-IsLawful = record {
  round_trip = λ v e.
      ap decode (sym (append-nil (encode v)))
      ∙ decode-encode v []
      ∙ ap (λ t. ok (record v { tags = t })) (sym e);
  empty = ([], refl);
  trailing = λ v w n h.
      let (y, ys, e) = drop_within n (encode w) h in
      ([], ap (λ r. decode (encode v ++ r)) e ∙ decode-encode v (y ∷ ys));
}
