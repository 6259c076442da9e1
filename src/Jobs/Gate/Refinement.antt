-- ===== src/Jobs/Gate/Refinement.antt =====
-- Any calls of the gate against those of the queue.
use sandman.Prelude.{◌≡◌, ◌⊎◌, refl, ap, inl, inr, true, false, List, [], ◌∷◌, Bool-cases}
use sandman.Jobs.Gate.{JobGate, new_gate, enter, remove, release}
use sandman.Jobs.Gate.Queue.{
  JobQueue, new_queue, Call, enters, leaves, releases, Reply, started, removed, released,
  queue_call, queue_run, IsRising, IsFalling, after,
}
use sandman.Jobs.Gate.Represents.{Represents, new_gate-Represents, remove_lem, release_lem}
use sandman.Jobs.Gate.Arrival.{enter_lem}

abbrev pub gate_call : JobGate → Call → JobGate × Reply
gate_call g enters = ((enter g).0, started (enter g).1)
gate_call g (leaves n) = ((remove g n).0, removed (remove g n).1)
gate_call g releases = (release g, released)

abbrev pub gate_run : JobGate → List Call → JobGate × List Reply
gate_run g [] = (g, [])
gate_run g (c ∷ cs) =
    let now = gate_call g c in let rest = gate_run now.0 cs in (rest.0, now.1 ∷ rest.1)

gate_call-Represents :
    (g : JobGate) (q : JobQueue) (c : Call)
    → Represents g q
    → Represents (gate_call g c).0 (queue_call q c).0 × ((gate_call g c).1 ≡ (queue_call q c).1)
gate_call-Represents g q enters r = let e = enter_lem g q r in (e.0, ap started e.1)
gate_call-Represents g q (leaves n) r = let e = remove_lem g q n r in (e.0, ap removed e.1)
gate_call-Represents g q releases r = (release_lem g q r, refl)

gate_run-Represents :
    (g : JobGate) (q : JobQueue) (cs : List Call)
    → Represents g q
    → Represents (gate_run g cs).0 (queue_run q cs).0 × ((gate_run g cs).1 ≡ (queue_run q cs).1)
gate_run-Represents g q [] r = (r, refl)
gate_run-Represents g q (c ∷ cs) r =
    let now = gate_call-Represents g q c r in
    let rest = gate_run-Represents (gate_call g c).0 (queue_call q c).0 cs now.0 in
    (rest.0, λ i. now.1 i ∷ rest.1 i)

never_idle :
    (q : JobQueue) → (q.taken ≡ false → q.waiting ≡ []) → (q.taken ≡ true) ⊎ (q.waiting ≡ [])
never_idle q h = elim (Bool-cases q.taken) [ inl e ↦ inl e | inr e ↦ inr (h e) ]

-- A gate implements a first-come-first-served queue: after any calls from the empty gate, each call
-- has answered as the queue answers it, the slot is held when the queue's is taken, and the jobs
-- handed the slot are those of the queue, in its order. The queue's waiting jobs are in the order of
-- their arrival, each arrived after every job that was handed the slot, the slot was handed on in
-- the order of arrival, and no job waits while the slot is free.
pub gate_run_lem :
    (cs : List Call)
    → ((gate_run new_gate cs).1 ≡ (queue_run new_queue cs).1)
      × ((gate_run new_gate cs).0.held ≡ (queue_run new_queue cs).0.taken)
      × ((gate_run new_gate cs).0.closed ≡ (queue_run new_queue cs).0.handed)
      × IsRising (after (queue_run new_queue cs).0.handed) (queue_run new_queue cs).0.waiting
      × IsFalling (queue_run new_queue cs).0.handed
      × (((queue_run new_queue cs).0.taken ≡ true) ⊎ ((queue_run new_queue cs).0.waiting ≡ []))
gate_run_lem cs =
    let e = gate_run-Represents new_gate new_queue cs new_gate-Represents in
    let r = e.0 in
    (e.1, r.slot, r.channels, r.order, r.past, never_idle (queue_run new_queue cs).0 r.idle)
