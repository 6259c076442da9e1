-- ===== src/Jobs/Gate/Slot/OneJob.antt =====
-- What the gate gives its jobs.
use mathlib.Core.Path.{subst}
use sandman.Prelude.{
  ℕ, ◌≡◌, refl, ap, ◌∙◌, inl, inr, Bool, true, false, Option, none, some, List, [], Option-cases,
  ==_iff, arith,
}
use sandman.Jobs.Gate.{same_node}
use sandman.Jobs.Gate.Queue.{holds}
use sandman.Jobs.Gate.Slot.{
  Phase, away, in_queue, too_late, entered, declining, running, GateState, IsReachable,
}
use sandman.Jobs.Gate.Slot.Fitting.{fitting, fitting-has_slot, fitting-in_queue}
use sandman.Jobs.Gate.Slot.Sound.{reachable_sound}

same_owner : (o : Option ℕ) (n m : ℕ) → same_node o n ≡ true → same_node o m ≡ true → n ≡ m
same_owner none n m h k = absurd cc
same_owner (some a) n m h k = ground (arith, ==_iff a n, ==_iff a m)

-- At every moment at most one job of a gate runs, whatever jobs arrive, are cancelled and end, and
-- in whatever order.
pub one_job_runs :
    (s : GateState) (n m : ℕ) → IsReachable s → s.phase n ≡ running → s.phase m ≡ running → n ≡ m
one_job_runs s n m r h k =
    let i = reachable_sound r in
    let q = i.queue in
    let f =
      fitting-has_slot (s.phase n) (holds n q.waiting) (same_node i.owner n) (holds n q.handed)
        (rw h refl) (i.sound.each n) in
    let g =
      fitting-has_slot (s.phase m) (holds m q.waiting) (same_node i.owner m) (holds m q.handed)
        (rw k refl) (i.sound.each m) in
    same_owner i.owner n m f.1 g.1

-- A job that need not wait for another: it is past the select, or its channel is closed.
abbrev pub can_go : Phase → Bool → Bool
can_go away c = false
can_go in_queue c = c
can_go p c = true

fitting-can_go : (p : Phase) (q c : Bool) → fitting p q true c ≡ true → can_go p c ≡ true
fitting-can_go away q c f = ground arith
fitting-can_go in_queue q c f = ground arith
fitting-can_go too_late q c f = refl
fitting-can_go entered q c f = refl
fitting-can_go declining q c f = refl
fitting-can_go running q c f = refl

-- No wake-up is lost: while a job waits in the select, some job at the gate can go on by itself,
-- since it is past the select or its channel is closed. The waiting jobs are never all stuck.
pub some_job_can_go :
    (s : GateState) (n : ℕ)
    → IsReachable s
    → s.phase n ≡ in_queue
    → (m : ℕ) × (can_go (s.phase m) (holds m s.gate.closed) ≡ true)
some_job_can_go s n r e =
    let i = reachable_sound r in
    let q = i.queue in
    elim (Option-cases i.owner) [
      | inl o ↦ absurd (
          let w : q.waiting ≡ [] = i.sound.stands_for.idle (i.sound.owned ∙ rw o refl) in
          let f =
            fitting-in_queue (s.phase n) (holds n q.waiting) (same_node i.owner n)
              (holds n q.handed) e (i.sound.each n) in
          elim f [
            | inl g ↦ cc (subst (λ (ws : List ℕ). holds n ws ≡ true) w g.0)
            | inr g ↦ cc (subst (λ (a : Option ℕ). same_node a n ≡ true) o g.1)
          ])
      | inr (k, o) ↦ (
        k,
        rw i.sound.stands_for.channels (
            fitting-can_go (s.phase k) (holds k q.waiting) (holds k q.handed) (
              subst
                (λ (b : Bool). fitting (s.phase k) (holds k q.waiting) b (holds k q.handed) ≡ true)
                (ap (λ (a : Option ℕ). same_node a k) o ∙ (==_iff k k).1 refl) (i.sound.each k))),
      )
    ]
