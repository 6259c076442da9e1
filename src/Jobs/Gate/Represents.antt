-- ===== src/Jobs/Gate/Represents.antt =====
-- The gate with its pointers against the queue that it stands for, when a job leaves and when the
-- slot is released.
use sandman.Prelude.{
  ℕ, suc, ◌≤◌, ◌<◌, ◌≡◌, refl, ap, ◌∙◌, inl, inr, false, Option, none, some, List, [], ◌∷◌, length,
  Bool-cases, some_inj, if◌then◌else◌, ◌==◌, arith,
}
use sandman.Jobs.Gate.{JobGate, new_gate, remove, remove_from, release, release_to, is_none}
use sandman.Jobs.Gate.Queue.{
  JobQueue, new_queue, leave, hand_on, hand_to, holds, erase, IsDistinct, AreBelow, IsRising,
  IsFalling, after, IsRising-IsDistinct, erase-IsRising, length-IsRising, erase-All,
}
use sandman.Jobs.Gate.Unlink.{IsSegment, last_of, remove_from_lem, last_of_tail}

pub record Represents (g : JobGate) (q : JobQueue) : Type 0 where
  pub chain : IsSegment g.next g.head q.waiting
  pub ends : g.tail ≡ last_of none q.waiting
  pub allocated : g.fresh ≡ q.arrived
  pub known : AreBelow q.arrived q.waiting
  pub granted : AreBelow q.arrived q.handed
  pub slot : g.held ≡ q.taken
  pub channels : g.closed ≡ q.handed
  pub order : IsRising (after q.handed) q.waiting
  pub past : IsFalling q.handed
  pub idle : q.taken ≡ false → q.waiting ≡ []

pub new_gate-Represents : Represents new_gate new_queue
new_gate-Represents = record {
  chain = refl;
  ends = refl;
  allocated = refl;
  known = tt;
  granted = tt;
  slot = refl;
  channels = refl;
  order = tt;
  past = tt;
  idle = λ h. refl;
}

pub after_lem : (n : ℕ) (hs : List ℕ) → AreBelow n hs → after hs ≤ n
after_lem n [] b = omega arith
after_lem n (h ∷ hs) b = omega (arith, b.0)

fits : (g : JobGate) (q : JobQueue) → Represents g q → length q.waiting < suc g.fresh
fits g q r = omega (
  arith,
  r.allocated,
  length-IsRising q.arrived (after q.handed) q.waiting (after_lem q.arrived q.handed r.granted)
      r.known r.order,
)

-- The gate's list holds the jobs `ws`, and the rest of the gate is as before.
record Lists (g g' : JobGate) (ws : List ℕ) : Type 0 where
  listed : IsSegment g'.next g'.head ws
  closing : g'.tail ≡ last_of none ws
  same_fresh : g'.fresh ≡ g.fresh
  same_held : g'.held ≡ g.held
  same_closed : g'.closed ≡ g.closed

remove_from-Lists :
    (g : JobGate) (n : ℕ) (h : Option ℕ) (ws : List ℕ)
    → length ws < suc g.fresh
    → IsDistinct ws
    → IsSegment g.next h ws
    → g.head ≡ h
    → g.tail ≡ last_of none ws
    → Lists g (remove_from (suc g.fresh) none h n g).0 (erase n ws)
      × ((remove_from (suc g.fresh) none h n g).1 ≡ holds n ws)
unfolding remove_from
remove_from-Lists g n h [] l d s e t = rw s (unmoved, refl)
  where
    unmoved : Lists g g []
    unmoved = record {
      listed = e ∙ s;
      closing = t;
      same_fresh = refl;
      same_held = refl;
      same_closed = refl;
    }
remove_from-Lists g n h (x ∷ xs) l d s e t = rw s.0 (elim (Bool-cases (x == n)) [
  | inl b ↦ rw b (
    record {
      listed = s.1;
      closing = rw t (last_of_tail x none xs d.0);
      same_fresh = refl;
      same_held = refl;
      same_closed = refl;
    },
    refl,
  )
  | inr b ↦ rw b (
      let p = remove_from_lem g.fresh g x n xs (omega (arith, l)) d s.1 t in
      (
        record {
          listed = (p.0.front ∙ e ∙ s.0, p.0.chain);
          closing = p.0.ends;
          same_fresh = p.0.allocated;
          same_held = p.0.slot;
          same_closed = p.0.channels;
        },
        p.1,
      ))
])

pub remove_lem :
    (g : JobGate) (q : JobQueue) (n : ℕ)
    → Represents g q
    → Represents (remove g n).0 (leave n q) × ((remove g n).1 ≡ holds n q.waiting)
unfolding remove
remove_lem g q n r =
    let d = IsRising-IsDistinct (after q.handed) q.waiting r.order in
    let p = remove_from-Lists g n g.head q.waiting (fits g q r) d r.chain refl r.ends in
    let k = p.0 in
    (
      record {
        chain = k.listed;
        ends = k.closing;
        allocated = k.same_fresh ∙ r.allocated;
        known = erase-All (λ (x : ℕ). x < q.arrived) n q.waiting r.known;
        granted = r.granted;
        slot = k.same_held ∙ r.slot;
        channels = k.same_closed ∙ r.channels;
        order = erase-IsRising n (after q.handed) q.waiting r.order;
        past = r.past;
        idle = λ h. rw (r.idle h) refl;
      },
      p.1,
    )

-- The tail that release leaves, from the first of the jobs behind the head.
tail_behind :
    (next : ℕ → Option ℕ) (x : ℕ) (xs : List ℕ)
    → IsSegment next (next x) xs
    → (if is_none (next x) then none else last_of (some x) xs) ≡ last_of none xs
tail_behind next x [] s = rw s refl
tail_behind next x (y ∷ xs) s = rw s.0 refl

release_to-Represents :
    (g : JobGate) (q : JobQueue) (h : Option ℕ) (ws : List ℕ)
    → Represents (record g { head = h }) (record q { waiting = ws })
    → Represents (release_to h (record g { head = h })) (hand_to ws (record q { waiting = ws }))
release_to-Represents g q none [] r = record {
  chain = r.chain;
  ends = r.ends;
  allocated = r.allocated;
  known = r.known;
  granted = r.granted;
  slot = refl;
  channels = r.channels;
  order = r.order;
  past = r.past;
  idle = λ h. refl;
}
release_to-Represents g q none (x ∷ xs) r = absurd (ground (arith, r.chain.0))
release_to-Represents g q (some y) [] r = absurd (ground (arith, r.chain))
release_to-Represents g q (some y) (x ∷ xs) r = rw (some_inj r.chain.0) (record {
  chain = r.chain.1;
  ends = rw r.ends (tail_behind g.next x xs r.chain.1);
  allocated = r.allocated;
  known = r.known.1;
  granted = (r.known.0, r.granted);
  slot = r.slot;
  channels = ap (λ hs. x ∷ hs) r.channels;
  order = r.order.1;
  past = (r.order.0, r.past);
  idle = λ h. absurd (ground (arith, r.idle h));
})

pub release_lem : (g : JobGate) (q : JobQueue) → Represents g q → Represents (release g) (hand_on q)
unfolding release
release_lem g q r = release_to-Represents g q g.head q.waiting r
