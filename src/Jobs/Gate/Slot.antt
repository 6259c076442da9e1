-- ===== src/Jobs/Gate/Slot.antt =====
-- The jobs at one gate: enter with its select, and the release when a job ends. A job is named by
-- its node. When cancelCh is closed and the flag `cancelled` is set is left open, so that each
-- branch on them may be taken at any time.
pub mod Fitting
pub mod Sound
pub mod OneJob
use mathlib.Core.Path.{subst}
use sandman.Prelude.{
  ℕ, ltb, ltb→lt, zero, suc, ◌<◌, ◌≤◌, ◌≡◌, ◌≢◌, ◌⊎◌, refl, sym, ap, ◌∙◌, inl, inr, Bool, true,
  false, not, ◌&&◌, ◌||◌, Option, none, some, List, [], ◌∷◌, ◌++◌, Bool-cases, Option-cases,
  if◌then◌else◌, if_cases, ◌==◌, ==_iff, some_inj, arith,
}
use sandman.Jobs.Gate.{JobGate, new_gate, enter, remove, release, set_at, same_node}
use sandman.Jobs.Gate.Queue.{
  JobQueue, new_queue, arrive, leave, hand_on, hand_to, enters, leaves, releases, holds, erase,
  AreBelow, IsRising, IsDistinct, IsRising-IsDistinct, after, holds-append, holds-erase,
  AreBelow-holds,
}
use sandman.Jobs.Gate.Represents.{
  Represents, new_gate-Represents, after_lem, remove_lem, release_lem,
}
use sandman.Jobs.Gate.Arrival.{enter_lem}

-- Where a job stands: it has not come or has left; it waits in the select; it was cancelled and
-- remove did not find it; it is past the select; it declines the slot; it runs.
pub data Phase : Type 0 where
  away in_queue too_late entered declining running : Phase

pub record GateState : Type 0 where
  pub gate : JobGate
  pub phase : ℕ → Phase

abbrev pub no_jobs : GateState
no_jobs = record { gate = new_gate; phase = λ n. away }

abbrev pub move : ℕ → Phase → JobGate → GateState → GateState
move n p g s = record { gate = g; phase = set_at n p s.phase }

abbrev pub arrived : GateState → GateState
arrived s = move s.gate.fresh (if (enter s.gate).1 then entered else in_queue) (enter s.gate).0 s

abbrev pub cancelled : ℕ → GateState → GateState
cancelled n s = move n (if (remove s.gate n).1 then away else too_late) (remove s.gate n).0 s

abbrev pub let_go : ℕ → GateState → GateState
let_go n s = move n away (release s.gate) s

pub data Step (s : GateState) : GateState → Type 0 where
  -- A job calls enter.
  arrives : Step s (arrived s)
  -- Its channel is closed, and the select takes that case.
  wakes :
      (n : ℕ)
      → s.phase n ≡ in_queue
      → holds n s.gate.closed ≡ true
      → Step s (move n entered s.gate s)
  -- The select takes the case of the cancel.
  cancels : (n : ℕ) → s.phase n ≡ in_queue → Step s (cancelled n s)
  -- The slot was handed to it in the meantime, and it passes it on.
  passes_on : (n : ℕ) → s.phase n ≡ too_late → Step s (let_go n s)
  -- The flag is not set: it runs.
  runs : (n : ℕ) → s.phase n ≡ entered → Step s (move n running s.gate s)
  -- The flag is set.
  declines : (n : ℕ) → s.phase n ≡ entered → Step s (move n declining s.gate s)
  declined : (n : ℕ) → s.phase n ≡ declining → Step s (let_go n s)
  -- The deferred release.
  ends : (n : ℕ) → s.phase n ≡ running → Step s (let_go n s)

-- The states that a gate goes through from its creation.
pub data IsReachable : GateState → Type 0 where
  at_first : IsReachable no_jobs
  by_step : {s t : GateState} → IsReachable s → Step s t → IsReachable t
