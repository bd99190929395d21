-- ===== src/Driver/Serve.antt =====
-- pkg/driver/grpc.go and `Run` of pkg/driver/driver.go: how the server of a plugin is set up. What the
-- operating system and gRPC answer is a parameter; the calls that are made are written down. A call
-- of `klog.Fatal` ends the process with a text.
use csi_hostpath.Base.{
  ◌≡◌, refl, ap, ◌∙◌, Bool, true, false, Option, none, some, List, [], ◌∷◌, ◌++◌, ◌⊎◌, inl, inr,
  Text, text, Outcome, ok, err, Exec, pure, fail, ◌>>=◌, ◌>>◌, ◌==◌, list_eq, nat_eq, if◌then◌else◌,
  Bool-cases, append_assoc, subst, sym, eq-eq, list_beq, ◌↔◌,
}
use csi_hostpath.FileSystem.{slash}
use csi_hostpath.Driver.{Services, new, is_informative_log}
use csi_hostpath.Driver.Endpoint.{parse_endpoint}

pub data Service : Type 0 where
  identity : Service
  controller : Service
  node : Service
  group_controller : Service

pub data Event : Type 0 where
  removed : Text → Event
  listened : Text → Text → Event
  registered : Service → Event
  served : Event

pub data RemoveError : Type 0 where
  missing : RemoveError
  refused : Text → RemoveError

-- What `os.Remove`, `net.Listen` and `server.Serve` return: `none` is no error.
pub record Network : Type 0 where
  pub remove : Text → Option RemoveError
  pub listen : Text → Text → Option Text
  pub serve : Option Text

abbrev Setup : Type 0
Setup = Exec (List Event) Text (Unit {0})

abbrev note : Event → Setup
note e es = (ok tt, es ++ (e ∷ []))

abbrev fatal : Option Text → Setup
fatal none = pure tt
fatal (some e) = fail e

abbrev stale : Option RemoveError → Setup
stale none = pure tt
stale (some missing) = pure tt
stale (some (refused e)) = fail e

abbrev register : Bool → Service → Setup
register true s = note (registered s)
register false s = pure tt

-- The services that are not nil
unfoldable pub register_all : Services → Setup
register_all sv = do
  register sv.identity identity
  register sv.controller controller
  register sv.node node
  register sv.group_controller group_controller

abbrev parsed : Outcome Text (Text × Text) → Exec (List Event) Text (Text × Text)
parsed r es = (r, es)

-- The socket's path, and the removal of what an earlier run has left there
unfoldable pub clear_socket : Network → Text → Text → Exec (List Event) Text Text
unfolding text
clear_socket N proto addr =
    if proto == text "unix"
    then (do note (removed (slash ∷ addr)); stale (N.remove (slash ∷ addr)); pure (slash ∷ addr))
    else pure addr

unfoldable pub serve : Network → Text → Services → Exec (List Event) Text (Unit {0})
unfolding clear_socket register_all
serve N endpoint sv = do
  (proto, addr) ← parsed (parse_endpoint endpoint)
  path ← clear_socket N proto addr
  note (listened proto path)
  fatal (N.listen proto path)
  register_all sv
  note served
  fatal N.serve

-- `logGRPC`: the lines of the log, as the calls that are written to it, beside the handler's answer
pub data Line : Type 0 where
  call : Text → Line
  failed : Text → Line
  answered : Line

abbrev outcome_line : {A : Type 0} → Text ⊎ A → Line
outcome_line (inl e) = failed e
outcome_line (inr a) = answered

unfoldable pub log_grpc :
    {S A : Type 0} → Text → (S → (Text ⊎ A) × S) → S × List Line → (Text ⊎ A) × (S × List Line)
unfolding is_informative_log
log_grpc method handler (s, lines) =
    let (r, s') = handler s in
    if is_informative_log method
    then (r, (s', lines ++ (call method ∷ (outcome_line r ∷ []))))
    else (r, (s', lines))

-- Where a plugin listens, with the removal of a stale socket before it
abbrev pub place : Text → Text → List Event
unfolding text
place proto addr =
    if proto == text "unix"
    then removed (slash ∷ addr) ∷ (listened proto (slash ∷ addr) ∷ [])
    else listened proto addr ∷ []

abbrev pub path : Text → Text → Text
unfolding text
path proto addr = if proto == text "unix" then slash ∷ addr else addr

-- The services of a type of plugin
abbrev pub services : Text → List Event
unfolding text
services plugin_type =
    if plugin_type == text "controller"
    then registered identity ∷ (registered controller ∷ (registered group_controller ∷ []))
    else if plugin_type == text "agent"
    then registered identity ∷ (registered node ∷ [])
    else registered identity ∷ []

controller-services :
    (es : List Event)
    → register_all (new (text "controller")) es ≡ (ok tt, es ++ services (text "controller"))
unfolding register_all new text list_beq
controller-services es =
    ap (λ x. (ok tt, x))
      (append_assoc (es ++ (registered identity ∷ [])) (registered controller ∷ [])
          (registered group_controller ∷ [])
        ∙ append_assoc es (registered identity ∷ []) _)

agent-services :
    (es : List Event)
    → register_all (new (text "agent")) es ≡ (ok tt, es ++ services (text "agent"))
unfolding register_all new text list_beq
agent-services es =
    ap (λ x. (ok tt, x)) (append_assoc es (registered identity ∷ []) (registered node ∷ []))

other-services :
    (t : Text) (es : List Event)
    → (t == text "controller") ≡ false
    → (t == text "agent") ≡ false
    → register_all (new t) es ≡ (ok tt, es ++ services t)
unfolding register_all new
other-services t es n m = rw (n, m) refl

register_all-services :
    (plugin_type : Text) (es : List Event)
    → register_all (new plugin_type) es ≡ (ok tt, es ++ services plugin_type)
register_all-services plugin_type es = elim (Bool-cases (plugin_type == text "controller")) [
  | inl c ↦
      subst (λ t. register_all (new t) es ≡ (ok tt, es ++ services t)) (sym (eq-eq _ _ c))
        (controller-services es)
  | inr n ↦ elim (Bool-cases (plugin_type == text "agent")) [
    | inl a ↦
        subst (λ t. register_all (new t) es ≡ (ok tt, es ++ services t)) (sym (eq-eq _ _ a))
          (agent-services es)
    | inr m ↦ other-services plugin_type es n m
  ]
]

fatal-events : (o : Option Text) (es : List Event) → (fatal o es).1 ≡ es
fatal-events none es = refl
fatal-events (some e) es = refl

fatal-error :
    (o : Option Text) (es : List Event) (e : Text) → ((fatal o es).0 ≡ err e) ↔ (o ≡ some e)
fatal-error none es e = (λ p. cc, λ p. cc)
fatal-error (some f) es e = (λ p. cc, λ p. cc)

module _ (N : Network) (endpoint proto addr plugin_type : Text)
    (parses : parse_endpoint endpoint ≡ ok (proto, addr))
    (clears : (N.remove (slash ∷ addr) ≡ none) ⊎ (N.remove (slash ∷ addr) ≡ some missing)) where
  -- Up to the listener
  serve-place :
      serve N endpoint (new plugin_type) []
      ≡ (do
        fatal (N.listen proto (path proto addr))
        register_all (new plugin_type)
        note served
        fatal N.serve)
          (place proto addr)
  unfolding serve clear_socket
  serve-place = elim (Bool-cases (proto == text "unix")) [
    | inl unix ↦ elim clears [
      | inl gone ↦ rw (parses, unix, gone) refl
      | inr absent ↦ rw (parses, unix, absent) refl
    ]
    | inr other ↦ rw (parses, other) refl
  ]

  -- For an endpoint of two parts, where no stale socket is left that cannot be removed, a plugin
  -- listens at the second part, below the root for unix, where it has removed what was there. If it
  -- cannot listen, the process ends with that error, and no service is registered. Else exactly the
  -- services of the plugin's type are registered, the identity always, and it serves; it ends the
  -- process exactly if that returns an error.
  pub serve_lem :
      ((e : Text)
        → N.listen proto (path proto addr) ≡ some e
        → serve N endpoint (new plugin_type) [] ≡ (err e, place proto addr))
      × (N.listen proto (path proto addr) ≡ none
          → ((serve N endpoint (new plugin_type) []).1
              ≡ (place proto addr ++ services plugin_type) ++ (served ∷ []))
            × ((e : Text)
                → ((serve N endpoint (new plugin_type) []).0 ≡ err e) ↔ (N.serve ≡ some e)))
  serve_lem = (
    λ e h. serve-place ∙ rw h refl,
    λ h.
        let all = (place proto addr ++ services plugin_type) ++ (served ∷ []) in
        let run : serve N endpoint (new plugin_type) [] ≡ fatal N.serve all =
          serve-place ∙ rw (h, register_all-services plugin_type (place proto addr)) refl in
        (
          ap (λ r. r.1) run ∙ fatal-events N.serve all,
          λ e. (
            λ p. (fatal-error N.serve all e).0 (ap (λ r. r.0) (sym run) ∙ p),
            λ p. ap (λ r. r.0) run ∙ (fatal-error N.serve all e).1 p,
          ),
        ),
  )
