-- ===== src/Tests/Start.antt =====
-- The start of a plugin: its server, the group that it waits for, and the connection to a node; and the
-- tool of the tests.
use csi_hostpath.Base.{
  ◌<◌, ℕ, zero, suc, ◌≡◌, ◌≢◌, ◌↔◌, refl, arith, none, some, inl, inr, Option, [], ◌∷◌, ◌++◌, Text,
  text, ok, err, true, false, list_eq, nat_eq, list_beq, has_prefix, to_lower, lower, contains,
}
use csi_hostpath.FileSystem.{quiet}
use csi_hostpath.Driver.{new}
use csi_hostpath.Driver.Endpoint.{parse_endpoint, split_in_two}
use csi_hostpath.Driver.Serve.{
  Network, serve, clear_socket, register_all, serve_lem, path, place, services, served, missing,
  removed, listened, registered, identity, node,
}
use csi_hostpath.Driver.Wait.{Process, idle, started, finish, here, then, run_never_returns}
use csi_hostpath.Client.Connect.{
  Connectivity, connected, connecting, ready, wait_ready, connect, connect_lem, timed_out,
}
use csi_hostpath.Base.Dict.{lookup}
use csi_hostpath.Base.Int.{ℤ, ltb_ℤ}
use csi_hostpath.Service.{lvmd_port, service_address}
use csi_hostpath.Service.Start
use csi_hostpath.Controller.Params.{Numbers, new_snapshot_params, percentage}
use csi_hostpath.Tool.{fake_os_tool}

abbrev endpoint : Text
unfolding text
endpoint = text "unix://csi/csi.sock"

abbrev unix : Text
unfolding text
unix = text "unix"

abbrev socket : Text
unfolding text
socket = text "csi/csi.sock"

abbrev agent : Text
unfolding text
agent = text "agent"

-- A network where nothing fails, and no socket is left
abbrev network : Network
network = record { remove = λ t. some missing; listen = λ p a. none; serve = none }

endpoint-parses : parse_endpoint endpoint ≡ ok (unix, socket)
unfolding parse_endpoint has_prefix to_lower lower split_in_two text list_beq endpoint
endpoint-parses = refl

serve_test :
    (serve network endpoint (new agent) []).1
    ≡ removed (text "/csi/csi.sock")
      ∷ (listened unix (text "/csi/csi.sock")
          ∷ (registered identity ∷ (registered node ∷ (served ∷ []))))
unfolding serve new parse_endpoint has_prefix to_lower lower split_in_two text list_beq endpoint
    clear_socket register_all
serve_test = refl

serve_lem_example :
    ((e : Text)
      → network.listen unix (path unix socket) ≡ some e
      → serve network endpoint (new agent) [] ≡ (err e, place unix socket))
    × (network.listen unix (path unix socket) ≡ none
        → ((serve network endpoint (new agent) []).1
            ≡ (place unix socket ++ services agent) ++ (served ∷ []))
          × ((e : Text)
              → ((serve network endpoint (new agent) []).0 ≡ err e) ↔ (network.serve ≡ some e)))
serve_lem_example = serve_lem network endpoint unix socket agent endpoint-parses (inr refl)

-- The goroutine that serves has ended.
abbrev stopped : Process
stopped = record (started idle) { serving = 0 }

run_never_returns_example : stopped.returned ≡ false
run_never_returns_example =
    run_never_returns idle {q = stopped} refl (then here (finish (started idle) (omega arith)))

-- The connection is ready in the second round; the time would be over in the third.
abbrev change : ℕ → Option Connectivity
change zero = some connecting
change (suc zero) = some ready
change _ = none

connect_test : wait_ready change 2 0 ≡ some connected
unfolding wait_ready
connect_test = refl

abbrev no_error : Option Text
no_error = none

change_before : (m : ℕ) → m < 2 → change m ≢ none
change_before zero h = λ e. cc
change_before (suc zero) h = λ e. cc
change_before (suc (suc m)) h = absurd (omega (arith, h))

connect_lem_example :
    ((wait_ready change 3 0 ≡ some connected) ↔ ((m : ℕ) × (m < 2) × (change m ≡ some ready)))
    × ((wait_ready change 3 0 ≡ some timed_out) ↔ ((m : ℕ) → m < 2 → change m ≢ some ready))
    × ((e : Text) → (connect change 3 no_error socket ≡ some (inl e)) ↔ (no_error ≡ some e))
    × ((connect change 3 no_error socket ≡ some (inr socket)) ↔ (no_error ≡ none))
connect_lem_example = connect_lem change 2 refl change_before 3 no_error socket (omega arith)

fake_os_tool_test :
    (fake_os_tool.stat (text "a snapshot") (quiet []) ≡ (ok none, quiet []))
    × (fake_os_tool.resize_fs socket socket (quiet []) ≡ (ok true, quiet []))
unfolding contains has_prefix text list_beq
fake_os_tool_test = (refl, refl)

-- The node's service listens at the port that the controller dials.
start_test :
    (Start.start (record { listen = λ p a. none; serve = none }) lvmd_port []).1
    ≡ Start.listened (text "tcp") (text ":9091") ∷ (Start.registered ∷ (Start.served ∷ []))
unfolding Start.start service_address text
start_test = refl

-- Numbers where `none` is not a number, and no text is a quantity
abbrev numbers : Numbers
numbers = record {
  Float = Option ℤ;
  parse_float = λ t. inr none;
  less = λ a b. elim a [ none ↦ false | some x ↦ elim b [ none ↦ false | some y ↦ ltb_ℤ x y ] ];
  float64 = some;
  parse_quantity = λ t. inl t;
}

-- What is not a number passes the check of a percentage.
new_snapshot_params_test :
    new_snapshot_params numbers ((text "snapsize", text "NaN%") ∷ [])
    ≡ ok (record { snap_size = none; abs_snap_size = false })
unfolding new_snapshot_params percentage lookup text list_beq
new_snapshot_params_test = refl
