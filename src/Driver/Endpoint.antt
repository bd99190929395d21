-- ===== src/Driver/Endpoint.antt =====
-- pkg/driver/grpc.go: `parseEndpoint`.
use csi_hostpath.Base.{
  ℕ, ◌<◌, ◌≡◌, ◌≢◌, ◌↔◌, ◌⊎◌, inl, inr, refl, sym, ap, ◌∙◌, Bool, true, false, not, ◌&&◌, ◌||◌,
  Option, none, some, [], ◌∷◌, ◌++◌, Text, text, Outcome, ok, err, panic, ◌==◌, list_eq, nat_eq,
  list_beq, if◌then◌else◌, has_prefix, has_prefix-append, has_prefix_split, drop, length, lower,
  to_lower, arith, Bool-cases, append_assoc, subst,
}

abbrev before : ℕ → Option (Text × Text) → Option (Text × Text)
before x none = none
before x (some (p, a)) = some (x ∷ p, a)

-- `strings.SplitN(s, sep, 2)`: what stands before and behind the first `sep`, if there is one
unfoldable pub split_in_two : Text → Text → Option (Text × Text)
unfolding has_prefix
split_in_two sep [] = if has_prefix sep [] then some ([], drop (length sep) []) else none
split_in_two sep (x ∷ xs) =
    let rest = split_in_two sep xs in
    if has_prefix sep (x ∷ xs) then some ([], drop (length sep) (x ∷ xs)) else before x rest

abbrev pub separator : Text
unfolding text
separator = text "://"

-- `s[1]` of a slice with one element panics.
abbrev pub parts : Text → Option (Text × Text) → Outcome Text (Text × Text)
parts ep none = panic
parts ep (some (p, a)) = if a == [] then err ep else ok (p, a)

-- The error has the endpoint in its text.
unfoldable pub parse_endpoint : Text → Outcome Text (Text × Text)
unfolding has_prefix to_lower split_in_two text
parse_endpoint ep =
    if has_prefix (text "unix://") (to_lower ep) || has_prefix (text "tcp://") (to_lower ep)
    then parts ep (split_in_two separator ep)
    else err ep

abbrev has_no_colon : Text → Bool
has_no_colon [] = true
has_no_colon (c ∷ s) = not (c == 58) && has_no_colon s

lower_colon : (c : ℕ) → (lower c == 58) ≡ (c == 58)
unfolding lower
lower_colon c = ground arith

has_no_colon-to_lower : (s : Text) → has_no_colon (to_lower s) ≡ has_no_colon s
unfolding to_lower
has_no_colon-to_lower [] = refl
has_no_colon-to_lower (c ∷ s) = rw (lower_colon c, has_no_colon-to_lower s) refl

split_in_two-append :
    (p a : Text)
    → has_no_colon p ≡ true
    → split_in_two separator (p ++ separator ++ a) ≡ some (p, a)
unfolding split_in_two has_prefix text
split_in_two-append [] a h = refl
split_in_two-append (c ∷ p) a h =
    let (differ, rest) = colon_free in rw (differ, split_in_two-append p a rest) refl
  where
    colon_free : ((58 == c) ≡ false) × (has_no_colon p ≡ true)
    colon_free = ground arith

to_lower-append : (p a : Text) → to_lower (p ++ a) ≡ to_lower p ++ to_lower a
unfolding to_lower
to_lower-append [] a = refl
to_lower-append (c ∷ p) a = rw (to_lower-append p a) refl

-- What becomes two parts in lower case was two parts.
to_lower_split :
    (w rest ep : Text)
    → to_lower ep ≡ w ++ rest
    → (p : Text) × (q : Text) × (ep ≡ p ++ q) × (to_lower p ≡ w) × (to_lower q ≡ rest)
unfolding to_lower
to_lower_split [] rest ep h = ([], ep, refl, refl, h)
to_lower_split (d ∷ w) rest [] h = absurd cc
to_lower_split (d ∷ w) rest (c ∷ ep) h =
    let (p, q, same, low, low') = to_lower_split w rest ep cc in
    (c ∷ p, q, ap (λ x. c ∷ x) same, cc, low')

slash : (c : ℕ) → lower c ≡ 47 → c ≡ 47
unfolding lower
slash c h = ground arith

colon : (c : ℕ) → lower c ≡ 58 → c ≡ 58
unfolding lower
colon c h = ground arith

lower_punctuation :
    (a : Text) (q : Text) → to_lower q ≡ separator ++ a → (b : Text) × (q ≡ separator ++ b)
unfolding to_lower lower text
lower_punctuation a (c ∷ d ∷ e ∷ q) h = (q, cc (colon c cc, slash d cc, slash e cc))
lower_punctuation a [] h = absurd cc
lower_punctuation a (c ∷ []) h = absurd cc
lower_punctuation a (c ∷ d ∷ []) h = absurd cc

-- The proto, whatever its case
abbrev pub IsScheme : Text → Type 0
unfolding text
IsScheme p = (to_lower p ≡ text "unix") ⊎ (to_lower p ≡ text "tcp")

scheme-has_no_colon : (p : Text) → IsScheme p → has_no_colon p ≡ true
unfolding text
scheme-has_no_colon p (inl h) = sym (has_no_colon-to_lower p) ∙ rw h refl
scheme-has_no_colon p (inr h) = sym (has_no_colon-to_lower p) ∙ rw h refl

accepts : Text → Bool
unfolding text
accepts ep = has_prefix (text "unix://") (to_lower ep) || has_prefix (text "tcp://") (to_lower ep)

-- One of the two prefixes
behind :
    (w ep : Text)
    → has_prefix (w ++ separator) (to_lower ep) ≡ true
    → (p : Text) × (a : Text) × (ep ≡ p ++ separator ++ a) × (to_lower p ≡ w)
behind w ep h =
    let (rest, e) = has_prefix_split (w ++ separator) (to_lower ep) h in
    let (p, q, same, low, low') =
      to_lower_split w (separator ++ rest) ep (e ∙ append_assoc w separator rest) in
    let (a, same') = lower_punctuation rest q low' in
    (p, a, same ∙ ap (λ x. p ++ x) same' ∙ sym (append_assoc p separator a), low)

accepted :
    (ep : Text)
    → accepts ep ≡ true
    → (p : Text) × (a : Text) × (ep ≡ p ++ separator ++ a) × IsScheme p
unfolding accepts text
accepted ep h = elim (Bool-cases (has_prefix (text "unix://") (to_lower ep))) [
  | inl hit ↦ let (p, a, same, low) = behind (text "unix") ep hit in (p, a, same, inl low)
  | inr miss ↦
      let (p, a, same, low) = behind (text "tcp") ep (ground arith) in (p, a, same, inr low)
]

lowered :
    (p a w : Text) → to_lower p ≡ w → to_lower (p ++ separator ++ a) ≡ w ++ separator ++ to_lower a
unfolding to_lower lower text
lowered p a w low =
    to_lower-append (p ++ separator) a
    ∙ ap (λ x. x ++ to_lower a) (to_lower-append p separator ∙ ap (λ x. x ++ separator) low)

or_true : (b : Bool) → (b || true) ≡ true
or_true b = ground arith

accepts-append : (p a : Text) → IsScheme p → accepts (p ++ separator ++ a) ≡ true
unfolding accepts text
accepts-append p a (inl low) =
    rw (lowered p a (text "unix") low, has_prefix-append (text "unix://") (to_lower a)) refl
accepts-append p a (inr low) =
    rw (lowered p a (text "tcp") low, has_prefix-append (text "tcp://") (to_lower a))
      (or_true (has_prefix (text "unix://") (text "tcp://" ++ to_lower a)))

-- On a scheme and an address
parse_endpoint-append :
    (p a : Text)
    → IsScheme p
    → parse_endpoint (p ++ separator ++ a) ≡ parts (p ++ separator ++ a) (some (p, a))
unfolding parse_endpoint accepts
parse_endpoint-append p a scheme =
    rw (accepts-append p a scheme, split_in_two-append p a (scheme-has_no_colon p scheme)) refl

refused : (ep : Text) → accepts ep ≡ false → parse_endpoint ep ≡ err ep
unfolding parse_endpoint accepts
refused ep h = rw h refl

parts_lem : (ep q b p a : Text) → parts ep (some (q, b)) ≡ ok (p, a) → (q ≡ p) × (b ≡ a) × (a ≢ [])
unfolding list_beq
parts_lem ep q [] p a h = absurd cc
parts_lem ep q (x ∷ b) p a h = (cc, cc, λ e. cc)

parts-returns : (ep p a : Text) → a ≢ [] → parts ep (some (p, a)) ≡ ok (p, a)
unfolding list_beq
parts-returns ep p [] h = absurd (h refl)
parts-returns ep p (x ∷ a) h = refl

parts_safe : (ep q b : Text) → parts ep (some (q, b)) ≢ panic
unfolding list_beq
parts_safe ep q [] e = cc
parts_safe ep q (x ∷ b) e = cc

-- A text of ASCII characters
abbrev pub IsAscii : Text → Type 0
IsAscii [] = Unit
IsAscii (c ∷ s) = (c < 128) × IsAscii s

-- For an endpoint of ASCII characters, `parseEndpoint` never panics, and it returns two parts exactly
-- where the endpoint is the first, :// and the second, the second is not empty, and the first is unix
-- or tcp in lower, upper or mixed case.
pub parse_endpoint_lem :
    (ep p a : Text)
    → IsAscii ep
    → (parse_endpoint ep ≢ panic)
      × ((parse_endpoint ep ≡ ok (p, a)) ↔ ((ep ≡ p ++ separator ++ a) × (a ≢ []) × IsScheme p))
parse_endpoint_lem ep p a ascii =
    (safe, (returns, λ h. rw h.0 (parse_endpoint-append p a h.2 ∙ parts-returns _ p a h.1)))
  where
    shape :
        (q b : Text)
        → ep ≡ q ++ separator ++ b
        → IsScheme q
        → parse_endpoint ep ≡ parts ep (some (q, b))
    shape q b same scheme = rw same (parse_endpoint-append q b scheme)

    safe : parse_endpoint ep ≢ panic
    safe h = elim (Bool-cases (accepts ep)) [
      | inl hit ↦
          let (q, b, same, scheme) = accepted ep hit in
          parts_safe ep q b (sym (shape q b same scheme) ∙ h)
      | inr miss ↦ cc (refused ep miss)
    ]

    returns : parse_endpoint ep ≡ ok (p, a) → (ep ≡ p ++ separator ++ a) × (a ≢ []) × IsScheme p
    returns h = elim (Bool-cases (accepts ep)) [
      | inl hit ↦
          let (q, b, same, scheme) = accepted ep hit in
          let (eq, eb, full) = parts_lem ep q b p a (sym (shape q b same scheme) ∙ h) in
          (same ∙ rw (eq, eb) refl, full, subst IsScheme eq scheme)
      | inr miss ↦ absurd (cc (refused ep miss))
    ]
