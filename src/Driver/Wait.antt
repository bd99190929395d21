-- ===== src/Driver/Wait.antt =====
-- pkg/driver/grpc.go and pkg/driver/driver.go: the group that `Run` waits for. `Start` adds the goroutine
-- that serves to it, and nothing takes it out.
use csi_hostpath.Base.{ℕ, ◌+◌, ◌-◌, ◌<◌, ◌≡◌, Bool, true, false, arith}

-- The counter of `wg`, the goroutines that serve, and whether `Run` has returned
pub record Process : Type 0 where
  pub waiting : ℕ
  pub serving : ℕ
  pub returned : Bool

abbrev pub idle : Process
idle = record { waiting = 0; serving = 0; returned = false }

-- `Start`: `wg.Add(1)`, and the goroutine
abbrev pub started : Process → Process
started p = record p { waiting = p.waiting + 1; serving = p.serving + 1 }

-- What `Start`, the end of a `serve`, as after `Stop` and `ForceStop`, and `Wait` do
pub data ProcessStep : Process → Process → Type 0 where
  start : (p : Process) → ProcessStep p (started p)
  finish : (p : Process) → 0 < p.serving → ProcessStep p (record p { serving = p.serving - 1 })
  wait : (p : Process) → p.waiting ≡ 0 → ProcessStep p (record p { returned = true })

pub data Reaches (p : Process) : Process → Type 0 where
  here : Reaches p p
  then : {q r : Process} → Reaches p q → ProcessStep q r → Reaches p r

-- What holds once `Start` has been called
record IsWaiting (p : Process) : Type 0 where
  counted : 0 < p.waiting
  running : p.returned ≡ false

ProcessStep-IsWaiting : {p q : Process} → ProcessStep p q → IsWaiting p → IsWaiting q
ProcessStep-IsWaiting (start p) w = record { counted = omega arith; running = w.running }
ProcessStep-IsWaiting (finish p h) w = record { counted = w.counted; running = w.running }
ProcessStep-IsWaiting (wait p h) w = absurd (omega (arith, w.counted))

Reaches-IsWaiting : {p q : Process} → IsWaiting p → Reaches p q → IsWaiting q
Reaches-IsWaiting w here = w
Reaches-IsWaiting w (then r s) = ProcessStep-IsWaiting s (Reaches-IsWaiting w r)

-- Once `Start` has been called in a process where `Run` has not returned, it has not returned in any
-- state that the process reaches, also where the goroutine that serves has ended.
pub run_never_returns :
    (p : Process) {q : Process} → p.returned ≡ false → Reaches (started p) q → q.returned ≡ false
run_never_returns p h r =
    (Reaches-IsWaiting (record { counted = omega arith; running = h }) r).running
