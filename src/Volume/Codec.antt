-- ===== src/Volume/Codec.antt =====
-- What the node relies on of `encoding/json`, as an interface: the two functions that it calls, and
-- the laws of them that the theorems name.
use csi_hostpath.Base.{ℕ, ◌≡◌, ◌<◌, Outcome, ok, err, Text, [], ◌++◌, length, drop}
use csi_hostpath.Volume.{Vol}

-- `json.Marshal` of a `lib.Vol`, which cannot fail, and `json.Unmarshal` into one, which returns
-- the volume or the text of an error.
pub record Codec : Type 1 where
  pub marshal : Vol → Text
  pub unmarshal : Text → Outcome Text Vol
  -- The texts are UTF-8, and the size fits an uint64.
  pub IsEncodable : Vol → Type 0

pub record IsLawful (J : Codec) : Type 0 where
  -- Decoding gives back what was encoded.
  pub round_trip : (v : Vol) → J.IsEncodable v → J.unmarshal (J.marshal v) ≡ ok v
  -- An empty text is no value.
  pub empty : (e : Text) × (J.unmarshal [] ≡ err e)
  -- Nothing but blanks may follow a value, and the end of an encoding is no blank.
  pub trailing :
      (v w : Vol) (n : ℕ)
      → n < length (J.marshal w)
      → (e : Text) × (J.unmarshal (J.marshal v ++ drop n (J.marshal w)) ≡ err e)
