-- ===== src/Jobs/Gate/Slot/Sound.antt =====
-- The states of a gate and its jobs against the queue that the gate stands for.
use sandman.Prelude.{
  ℕ, ltb, ltb→lt, ◌<◌, ◌≤◌, ◌≡◌, refl, sym, ◌∙◌, inl, inr, Bool, true, false, Option, none, some,
  List, [], ◌∷◌, Bool-cases, if◌then◌else◌, ◌==◌, ==_iff, arith,
}
use sandman.Jobs.Gate.{JobGate, enter, remove, release, same_node}
use sandman.Jobs.Gate.Queue.{
  JobQueue, new_queue, arrive, leave, hand_to, holds, erase, IsRising-IsDistinct, after,
  holds-append, holds-erase, AreBelow-holds,
}
use sandman.Jobs.Gate.Represents.{Represents, new_gate-Represents, remove_lem, release_lem}
use sandman.Jobs.Gate.Arrival.{enter_lem}
use sandman.Jobs.Gate.Slot.{
  Phase, away, in_queue, too_late, entered, declining, running, GateState, move, arrived, cancelled,
  let_go, Step, arrives, wakes, cancels, passes_on, runs, declines, declined, ends, IsReachable,
  at_first, by_step,
}
use sandman.Jobs.Gate.Slot.Fitting.{
  fitting, is_held_by, is_away, has_slot, fitting-has_slot, has_slot-fitting, fitting-handed,
  nobody, somebody, fitting-in_queue, fitting-kept, other_owner,
}

pub record IsSound (s : GateState) (q : JobQueue) (owner : Option ℕ) : Type 0 where
  pub stands_for : Represents s.gate q
  pub owned : q.taken ≡ is_held_by owner
  pub later : (n : ℕ) → q.arrived ≤ n → s.phase n ≡ away
  pub each :
      (n : ℕ)
      → fitting (s.phase n) (holds n q.waiting) (same_node owner n) (holds n q.handed) ≡ true

abbrev pub Soundness : GateState → Type 0
Soundness s = record { queue : JobQueue; owner : Option ℕ; sound : IsSound s queue owner }

known_job :
    (s : GateState) (q : JobQueue) (owner : Option ℕ) (n : ℕ)
    → IsSound s q owner
    → is_away (s.phase n) ≡ false
    → n < q.arrived
known_job s q owner n i h = elim (Bool-cases (ltb n q.arrived)) [
  | inl l ↦ ltb→lt n q.arrived l
  | inr l ↦
      absurd
        (let e : is_away (s.phase n) ≡ true = rw (i.later n (ground arith)) refl in ground arith)
]

-- The job `n` moves to the phase `p` while the gate and its queue change.
module _ (s : GateState) (q q' : JobQueue) (owner owner' : Option ℕ) (n : ℕ) (p : Phase)
    (g : JobGate) where
  moved :
      IsSound s q owner
      → Represents g q'
      → q'.taken ≡ is_held_by owner'
      → q.arrived ≤ q'.arrived
      → n < q'.arrived
      → fitting p (holds n q'.waiting) (same_node owner' n) (holds n q'.handed) ≡ true
      → ((m : ℕ)
          → (m == n) ≡ false
          → fitting (s.phase m) (holds m q'.waiting) (same_node owner' m) (holds m q'.handed)
            ≡ true)
      → IsSound (move n p g s) q' owner'
  moved i r t a l f o = record {
    stands_for = r;
    owned = t;
    later = λ m k. let e : (m == n) ≡ false = ground arith in rw e (i.later m (omega arith));
    each = λ m. elim (Bool-cases (m == n)) [
      | inl e ↦ rw ((==_iff m n).0 e) (rw ((==_iff n n).1 refl) f)
      | inr e ↦ rw e (o m e)
    ];
  }

free_node :
    (s : GateState) (q : JobQueue) (owner : Option ℕ)
    → IsSound s q owner
    → same_node owner q.arrived ≡ false
free_node s q owner i = ground (arith, i.each q.arrived, i.later q.arrived (omega arith))

-- A job takes the free slot at once, or it waits.
arrives_at :
    (s : GateState) (q : JobQueue) (owner : Option ℕ) (taken : Bool)
    → IsSound s (record q { taken = taken }) owner
    → Soundness (arrived s)
arrives_at s q owner true i =
    let r = enter_lem s.gate (record q { taken = true }) i.stands_for in
    let a = i.stands_for.allocated in
    let o = free_node s (record q { taken = true }) owner i in
    let h = holds-append q.arrived q.waiting (q.arrived ∷ []) in
    record {
      queue = arrive (record q { taken = true });
      owner = owner;
      sound =
          moved s (record q { taken = true }) (arrive (record q { taken = true })) owner owner
            s.gate.fresh (if (enter s.gate).1 then entered else in_queue) (enter s.gate).0 i r.0
            i.owned (omega arith) (omega (arith, a))
            (rw (r.1, a, h, o, AreBelow-holds q.arrived q.handed i.stands_for.granted)
              (ground (arith, ==_iff q.arrived q.arrived)))
            (λ m e.
              let f = i.each m in
              ground (
                arith,
                f,
                a,
                holds-append m q.waiting (q.arrived ∷ []),
                ==_iff q.arrived m,
                ==_iff m s.gate.fresh,
              ));
    }
arrives_at s q owner false i =
    let r = enter_lem s.gate (record q { taken = false }) i.stands_for in
    let a = i.stands_for.allocated in
    record {
      queue = arrive (record q { taken = false });
      owner = some s.gate.fresh;
      sound =
          moved s (record q { taken = false }) (arrive (record q { taken = false })) owner
            (some s.gate.fresh) s.gate.fresh (if (enter s.gate).1 then entered else in_queue)
            (enter s.gate).0 i r.0 refl (omega arith) (omega (arith, a))
            (rw (r.1, i.stands_for.idle refl) (ground (arith, ==_iff s.gate.fresh s.gate.fresh)))
            (λ m e.
              let f = i.each m in
              ground (
                arith,
                f,
                ==_iff m s.gate.fresh,
                ==_iff s.gate.fresh m,
                nobody owner m (sym i.owned),
              ));
    }

hand_at :
    (n : ℕ) (s : GateState) (q : JobQueue) (owner : Option ℕ) (ws : List ℕ)
    → same_node owner n ≡ true
    → holds n ws ≡ false
    → n < q.arrived
    → Represents (release s.gate) (hand_to ws (record q { waiting = ws }))
    → IsSound s (record q { waiting = ws }) owner
    → Soundness (let_go n s)
hand_at n s q owner [] o h l r i = record {
  queue = record q { waiting = []; taken = false };
  owner = none;
  sound =
      moved s (record q { waiting = [] }) (record q { waiting = []; taken = false }) owner none n
        away (release s.gate) i r refl (omega arith) l refl
        (λ m e. let f = i.each m in ground (arith, f, o));
}
hand_at n s q owner (x ∷ xs) o h l r i = record {
  queue = hand_to (x ∷ xs) q;
  owner = some x;
  sound =
      moved s (record q { waiting = x ∷ xs }) (hand_to (x ∷ xs) q) owner (some x) n away
        (release s.gate) i r (i.owned ∙ somebody owner n o) (omega arith) l (ground arith)
        (λ m e. elim (Bool-cases (x == m)) [
          | inl b ↦
              let d : holds m xs ≡ false =
                rw⁻¹ ((==_iff x m).0 b)
                  (IsRising-IsDistinct (after q.handed) (x ∷ xs) i.stands_for.order).0 in
              rw (b, d)
                (fitting-handed (s.phase m) (holds m (x ∷ xs)) (same_node owner m)
                  (holds m q.handed) (ground arith) (i.each m))
          | inr b ↦
              fitting-kept (s.phase m) (x == m) (holds m xs) (same_node owner m) (holds m q.handed)
                b (other_owner owner n m o e) (i.each m)
        ]);
}

let_go-Soundness :
    {s : GateState} (n : ℕ) → has_slot (s.phase n) ≡ true → Soundness s → Soundness (let_go n s)
let_go-Soundness {s} n h i =
    let q = i.queue in
    let f =
      fitting-has_slot (s.phase n) (holds n q.waiting) (same_node i.owner n) (holds n q.handed) h
        (i.sound.each n) in
    hand_at n s q i.owner q.waiting f.1 f.0 (known_job s q i.owner n i.sound f.2)
      (release_lem s.gate q i.sound.stands_for) i.sound

keeps_slot :
    {s : GateState} (n : ℕ) (p : Phase) (i : Soundness s)
    → has_slot p ≡ true
    → (holds n i.queue.waiting ≡ false)
      × (same_node i.owner n ≡ true)
      × (is_away (s.phase n) ≡ false)
    → Soundness (move n p s.gate s)
keeps_slot {s} n p i h f =
    let q = i.queue in
    record {
      queue = q;
      owner = i.owner;
      sound =
          moved s q q i.owner i.owner n p s.gate i.sound i.sound.stands_for i.sound.owned
            (omega arith) (known_job s q i.owner n i.sound f.2)
            (rw (f.0, f.1) (has_slot-fitting p (holds n q.handed) h)) (λ m e. i.sound.each m);
    }

enters_next :
    {s : GateState} (n : ℕ) (p : Phase)
    → has_slot p ≡ true
    → s.phase n ≡ entered
    → Soundness s
    → Soundness (move n p s.gate s)
enters_next {s} n p h e i = keeps_slot n p i h (
    fitting-has_slot (s.phase n) (holds n i.queue.waiting) (same_node i.owner n)
      (holds n i.queue.handed) (rw e refl) (i.sound.each n))

wakes_sound :
    {s : GateState} (n : ℕ)
    → s.phase n ≡ in_queue
    → holds n s.gate.closed ≡ true
    → Soundness s
    → Soundness (move n entered s.gate s)
wakes_sound {s} n e c i =
    let q = i.queue in
    elim (fitting-in_queue (s.phase n) (holds n q.waiting) (same_node i.owner n) (holds n q.handed)
      e (i.sound.each n)) [
        | inl f ↦ absurd (
            let h : holds n q.handed ≡ true = rw⁻¹ i.sound.stands_for.channels c in
            ground (arith, f.2))
        | inr f ↦ keeps_slot n entered i refl (f.0, f.1, rw e refl)
      ]

cancels_sound :
    {s : GateState} (n : ℕ) → s.phase n ≡ in_queue → Soundness s → Soundness (cancelled n s)
cancels_sound {s} n e i =
    let q = i.queue in
    let r = remove_lem s.gate q n i.sound.stands_for in
    let d = IsRising-IsDistinct (after q.handed) q.waiting i.sound.stands_for.order in
    record {
      queue = leave n q;
      owner = i.owner;
      sound =
          moved s q (leave n q) i.owner i.owner n (if (remove s.gate n).1 then away else too_late)
            (remove s.gate n).0 i.sound r.0 i.sound.owned (omega arith)
            (known_job s q i.owner n i.sound (rw e refl))
            (elim (fitting-in_queue (s.phase n) (holds n q.waiting) (same_node i.owner n)
              (holds n q.handed) e (i.sound.each n)) [
                | inl f ↦
                    rw (r.1, holds-erase n n q.waiting d, f.0, f.1) (ground (arith, ==_iff n n))
                | inr f ↦ rw (r.1, holds-erase n n q.waiting d, f.0, f.1) refl
              ])
            (λ m k.
              let h : holds m (erase n q.waiting) ≡ holds m q.waiting =
                holds-erase n m q.waiting d ∙ ground arith in
              rw h (i.sound.each m));
    }

keeps_sound : {s t : GateState} → Step s t → Soundness s → Soundness t
keeps_sound {s} arrives i = arrives_at s i.queue i.owner i.queue.taken i.sound
keeps_sound (wakes n e c) i = wakes_sound n e c i
keeps_sound (cancels n e) i = cancels_sound n e i
keeps_sound (passes_on n e) i = let_go-Soundness n (rw e refl) i
keeps_sound (runs n e) i = enters_next n running refl e i
keeps_sound (declines n e) i = enters_next n declining refl e i
keeps_sound (declined n e) i = let_go-Soundness n (rw e refl) i
keeps_sound (ends n e) i = let_go-Soundness n (rw e refl) i

pub reachable_sound : {s : GateState} → IsReachable s → Soundness s
reachable_sound at_first = record {
  queue = new_queue;
  owner = none;
  sound = record {
    stands_for = new_gate-Represents;
    owned = refl;
    later = λ n l. refl;
    each = λ n. refl;
  };
}
reachable_sound (by_step r k) = keeps_sound k (reachable_sound r)
