-- ===== src/Client/Connect.antt =====
-- pkg/client/grpc.go: `connect`, whose loop waits until the connection is ready or the time is over. What
-- the connection does is a parameter: for each round the state that it has changed to, or `none` where
-- the time is over first.
use csi_hostpath.Base.{
  ℕ, zero, suc, ◌+◌, ◌<◌, ◌≤◌, ◌≡◌, ◌≢◌, ◌↔◌, refl, sym, ap, ◌∙◌, Bool, true, false, Option, none,
  some, ◌⊎◌, inl, inr, Text, arith, if◌then◌else◌, Bool-cases, Option-cases,
}

-- `connectivity.State`
pub data Connectivity : Type 0 where
  idle connecting ready transient_failure shutdown : Connectivity

abbrev pub is_ready : Connectivity → Bool
is_ready ready = true
is_ready _ = false

-- How the loop ends: the connection is ready, or the time is over.
pub data Waited : Type 0 where
  connected : Waited
  timed_out : Waited

abbrev after_change : Option Connectivity → Option Waited → Option Waited
after_change none later = some timed_out
after_change (some s) later = if is_ready s then some connected else later

-- The rounds from the one of that number on; `none` means that the fuel ran out.
unfoldable pub wait_ready : (ℕ → Option Connectivity) → ℕ → ℕ → Option Waited
wait_ready change zero n = none
wait_ready change (suc fuel) n =
    let later = wait_ready change fuel (suc n) in after_change (change n) later

abbrev connection : Text → Option Waited → Option (Text ⊎ Text)
connection address none = none
connection address (some waited) = some (inr address)

-- `connect`: the error of `grpc.Dial`, or the connection, which is returned however the loop ends
unfoldable pub connect : (ℕ → Option Connectivity) → ℕ → Option Text → Text → Option (Text ⊎ Text)
unfolding wait_ready
connect change fuel (some e) address = some (inl e)
connect change fuel none address = connection address (wait_ready change fuel 0)

-- The rounds from the one of a number on that come before the time is over
abbrev IsRound : ℕ → ℕ → ℕ → Type 0
IsRound n limit m = (n ≤ m) × (m < limit)

-- How the loop ends from a round on, and why
abbrev Ends : (ℕ → Option Connectivity) → ℕ → ℕ → ℕ → Type 0
Ends change fuel n limit =
    ((wait_ready change fuel n ≡ some connected)
      × (m : ℕ) × IsRound n limit m
      × (change m ≡ some ready))
    ⊎ ((wait_ready change fuel n ≡ some timed_out)
        × ((m : ℕ) → IsRound n limit m → change m ≢ some ready))

is_ready-eq : (s : Connectivity) → is_ready s ≡ true → s ≡ ready
is_ready-eq ready e = refl
is_ready-eq idle e = cc
is_ready-eq connecting e = cc
is_ready-eq transient_failure e = cc
is_ready-eq shutdown e = cc

nat_cases : (n m : ℕ) → (n < m) ⊎ (m ≤ n)
nat_cases n zero = inr (omega arith)
nat_cases zero (suc m) = inl (omega arith)
nat_cases (suc n) (suc m) = elim (nat_cases n m) [
  | inl e ↦ inl (omega (arith, e))
  | inr e ↦ inr (omega (arith, e))
]

some_eq : {A : Type 0} {a b : A} → Path (Option A) (some a) (some b) → a ≡ b
some_eq e = cc

not_ready : (s : Connectivity) → is_ready s ≡ false → s ≢ ready
not_ready s w e = cc (sym w ∙ ap is_ready e)

connect-answer :
    (change : ℕ → Option Connectivity) (fuel : ℕ) (dial : Option Text) (address : Text) (w : Waited)
    → wait_ready change fuel 0 ≡ some w
    → ((e : Text) → (connect change fuel dial address ≡ some (inl e)) ↔ (dial ≡ some e))
      × ((connect change fuel dial address ≡ some (inr address)) ↔ (dial ≡ none))
unfolding connect
connect-answer change fuel (some f) address w run = (λ e. (λ p. cc, λ p. cc), (λ p. cc, λ p. cc))
connect-answer change fuel none address w run =
    let at : connect change fuel none address ≡ some (inr address) = ap (connection address) run in
    (λ e. (λ p. cc (at, p), λ p. cc), (λ p. refl, λ p. at))

module _ (change : ℕ → Option Connectivity) (limit : ℕ) (over : change limit ≡ none)
    (before : (m : ℕ) → m < limit → change m ≢ none) where
  wait_ready-Ends : (fuel n : ℕ) → n ≤ limit → limit < n + fuel → Ends change fuel n limit
  unfolding wait_ready
  wait_ready-Ends zero n h k = absurd (omega arith)
  wait_ready-Ends (suc fuel) n h k = elim (Option-cases (change n)) [
    | inl gone ↦
        let late : limit ≤ n = elim (nat_cases n limit) [
          | inl early ↦ absurd (before n early gone)
          | inr late ↦ late
        ] in
        inr (rw gone refl, λ m r. absurd (omega (arith, r.0, r.1, late)))
    | inr (s, e) ↦
        let differ : n ≢ limit = λ q. cc (sym e ∙ ap change q ∙ over) in
        let early : n < limit = omega (arith, differ) in
        elim (Bool-cases (is_ready s)) [
          | inl r ↦ inl (rw (e, r) refl, n, (omega arith, early), e ∙ ap some (is_ready-eq s r))
          | inr w ↦ elim (wait_ready-Ends fuel (suc n) (omega (arith, early)) (omega arith)) [
            | inl (run, m, round, at) ↦
                inl (rw (e, w) run, m, (omega (arith, round.0), round.1), at)
            | inr (run, never) ↦ inr (
              rw (e, w) run,
              λ m round at. elim (nat_cases n m) [
                | inl later ↦ never m (later, round.1) at
                | inr sooner ↦
                    let same : n ≡ m = omega (arith, round.0, sooner) in
                    not_ready s w (some_eq (sym e ∙ ap change same ∙ at))
              ],
            )
          ]
        ]
  ]

  -- Where the time is over first in the round of the number `limit`, and there is fuel for one round
  -- more, the loop ends. It is connected exactly where the connection is ready in a round before
  -- that, and timed out exactly where it is ready in none. Then `connect` ends too: with the error of
  -- the dial if there is one, else with the connection, whichever way the loop has ended.
  pub connect_lem :
      (fuel : ℕ) (dial : Option Text) (address : Text)
      → limit < fuel
      → ((wait_ready change fuel 0 ≡ some connected)
          ↔ ((m : ℕ) × (m < limit) × (change m ≡ some ready)))
        × ((wait_ready change fuel 0 ≡ some timed_out)
            ↔ ((m : ℕ) → m < limit → change m ≢ some ready))
        × ((e : Text) → (connect change fuel dial address ≡ some (inl e)) ↔ (dial ≡ some e))
        × ((connect change fuel dial address ≡ some (inr address)) ↔ (dial ≡ none))
  connect_lem fuel dial address h =
      let ends = wait_ready-Ends fuel 0 (omega arith) (omega (arith, h)) in
      let (w, run) = ended ends in
      let answer = connect-answer change fuel dial address w run in
      elim ends [
        | inl (run, m, round, at) ↦ (
          (λ e. (m, round.1, at), λ x. run),
          (λ e. absurd (differs (some_eq (sym run ∙ e))), λ never. absurd (never m round.1 at)),
          answer.0,
          answer.1,
        )
        | inr (run, never) ↦ (
          (
            λ e. absurd (differs (some_eq (sym e ∙ run))),
            λ x. absurd (never x.0 (omega arith, x.1) x.2),
          ),
          (λ e m l at. never m (omega arith, l) at, λ x. run),
          answer.0,
          answer.1,
        )
      ]
    where
      differs : Path Waited connected timed_out → ⊥
      differs e = cc

      ended : Ends change fuel 0 limit → (w : Waited) × (wait_ready change fuel 0 ≡ some w)
      ended (inl x) = (connected, x.0)
      ended (inr x) = (timed_out, x.0)
