-- ===== src/Samples/GateRuns.antt =====
-- The theorems on a pipeline's gate, run on two jobs that arrive, the first of which runs.
use sandman.Prelude.{◌≡◌, ◌⊎◌, refl, true, List, [], ◌∷◌, ℕ}
use sandman.Jobs.Gate.{enter, new_gate}
use sandman.Jobs.Gate.Queue.{
  Call, enters, leaves, releases, new_queue, queue_run, holds, IsRising, IsFalling, after,
}
use sandman.Jobs.Gate.Refinement.{gate_run, gate_run_lem}
use sandman.Jobs.Gate.Slot.{
  GateState, no_jobs, move, running, arrived, IsReachable, at_first, by_step, arrives, runs,
}
use sandman.Jobs.Gate.Slot.OneJob.{one_job_runs, some_job_can_go, can_go}

-- Three jobs arrive, the second leaves, and the first is done.
abbrev three_jobs : List Call
three_jobs = enters ∷ enters ∷ enters ∷ leaves 1 ∷ releases ∷ []

gate_run_lem_example :
    ((gate_run new_gate three_jobs).1 ≡ (queue_run new_queue three_jobs).1)
    × ((gate_run new_gate three_jobs).0.held ≡ (queue_run new_queue three_jobs).0.taken)
    × ((gate_run new_gate three_jobs).0.closed ≡ (queue_run new_queue three_jobs).0.handed)
    × IsRising
        (after (queue_run new_queue three_jobs).0.handed)
        (queue_run new_queue three_jobs).0.waiting
    × IsFalling (queue_run new_queue three_jobs).0.handed
    × (((queue_run new_queue three_jobs).0.taken ≡ true)
        ⊎ ((queue_run new_queue three_jobs).0.waiting ≡ []))
gate_run_lem_example = gate_run_lem three_jobs

abbrev one_runs : GateState
one_runs = move 0 running (arrived no_jobs).gate (arrived no_jobs)

abbrev one_waits : GateState
one_waits = arrived one_runs

one_waits-IsReachable : IsReachable one_waits
unfolding enter
one_waits-IsReachable = by_step (by_step (by_step at_first arrives) (runs 0 refl)) arrives

abbrev first_job : ℕ
first_job = 0

one_job_runs_example : first_job ≡ first_job
unfolding enter
one_job_runs_example = one_job_runs one_waits first_job first_job one_waits-IsReachable refl refl

some_job_can_go_example :
    (m : ℕ) × (can_go (one_waits.phase m) (holds m one_waits.gate.closed) ≡ true)
unfolding enter
some_job_can_go_example = some_job_can_go one_waits 1 one_waits-IsReachable refl
