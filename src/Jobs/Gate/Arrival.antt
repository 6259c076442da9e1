-- ===== src/Jobs/Gate/Arrival.antt =====
-- The gate with its pointers against the queue that it stands for, when a job arrives.
use mathlib.Core.Path.{subst}
use sandman.Prelude.{
  ℕ, suc, ◌<◌, ◌≡◌, ◌≢◌, refl, sym, Bool, true, false, not, Option, none, some, List, [], ◌∷◌, ◌++◌,
  some_inj, All-map, All-append, ◌==◌, ==_iff, arith,
}
use sandman.Jobs.Gate.{JobGate, enter, set_at, same_node}
use sandman.Jobs.Gate.Queue.{
  JobQueue, arrive, holds, IsDistinct, AreBelow, after, IsRising-IsDistinct, append-IsRising,
  AreBelow-holds,
}
use sandman.Jobs.Gate.Unlink.{IsSegment, last_of, set_at_self, last_of_other}
use sandman.Jobs.Gate.Represents.{Represents, after_lem}

last_of-some : (x : ℕ) (xs : List ℕ) → last_of (some x) xs ≢ none
last_of-some x [] e = cc
last_of-some x (y ∷ xs) e = last_of-some y xs e

last_of-append : (d : Option ℕ) (n : ℕ) (xs : List ℕ) → last_of d (xs ++ n ∷ []) ≡ some n
last_of-append d n [] = refl
last_of-append d n (x ∷ xs) = last_of-append (some x) n xs

-- A node linked behind the last of a list.
link-IsSegment :
    (next : ℕ → Option ℕ) (n x t : ℕ) (xs : List ℕ)
    → IsDistinct (x ∷ xs)
    → holds n (x ∷ xs) ≡ false
    → last_of (some x) xs ≡ some t
    → IsSegment next (next x) xs
    → IsSegment
        (set_at t (some n) (set_at n none next))
        (set_at t (some n) (set_at n none next) x)
        (xs ++ n ∷ [])
link-IsSegment next n x t [] d a l s = rw⁻¹ (some_inj l) (
    let e : (n == x) ≡ false = ground (arith, ==_iff n x, ==_iff x n) in
    (set_at_self x (some n) (set_at n none next), rw e (set_at_self n none next)))
link-IsSegment next n x t (y ∷ xs) d a l s =
    let o : (t == x) ≡ false =
      subst (λ (d : Option ℕ). same_node d x ≡ false) l
        (last_of_other x y xs (ground arith) (ground arith)) in
    let e : (x == t) ≡ false = ground (arith, ==_iff x t, ==_iff t x) in
    let f : (x == n) ≡ false = ground arith in
    (rw (e, f) s.0, link-IsSegment next n y t xs d.1 (ground arith) l s.1)

-- The queue in which as many jobs arrived as the gate has nodes.
abbrev queue_of : JobGate → List ℕ → Bool → List ℕ → JobQueue
queue_of g ws taken hs = record { arrived = g.fresh; waiting = ws; taken = taken; handed = hs }

AreBelow-suc : (n : ℕ) (xs : List ℕ) → AreBelow n xs → AreBelow (suc n) xs
AreBelow-suc n xs h = All-map (λ x l. omega arith) xs h

enter-Represents :
    (g : JobGate) (held taken : Bool) (tail : Option ℕ) (ws hs : List ℕ)
    → Represents (record g { held = held; tail = tail }) (queue_of g ws taken hs)
    → Represents (enter (record g { held = held; tail = tail })).0 (arrive (queue_of g ws taken hs))
      × ((enter (record g { held = held; tail = tail })).1 ≡ not taken)
unfolding enter
enter-Represents g true false tail ws hs r = absurd (ground (arith, r.slot))
enter-Represents g false true tail ws hs r = absurd (ground (arith, r.slot))
enter-Represents g held taken (some t) [] hs r = absurd (ground (arith, r.ends))
enter-Represents g held taken none (x ∷ xs) hs r =
    absurd (ground (arith, r.ends, last_of-some x xs))
enter-Represents g false false (some t) (x ∷ xs) hs r = absurd (ground (arith, r.idle refl))
enter-Represents g false false none [] hs r = rw (set_at_self g.fresh none g.next) (
  record {
    chain = refl;
    ends = refl;
    allocated = refl;
    known = tt;
    granted = AreBelow-suc g.fresh hs r.granted;
    slot = refl;
    channels = r.channels;
    order = tt;
    past = r.past;
    idle = λ h. refl;
  },
  refl,
)
enter-Represents g true true none [] hs r = (
  record {
    chain = (refl, set_at_self g.fresh none g.next);
    ends = refl;
    allocated = refl;
    known = (omega arith, tt);
    granted = AreBelow-suc g.fresh hs r.granted;
    slot = refl;
    channels = r.channels;
    order = (after_lem g.fresh hs r.granted, tt);
    past = r.past;
    idle = λ h. absurd cc;
  },
  refl,
)
enter-Represents g true true (some t) (x ∷ xs) hs r = (
  record {
    chain = (
      r.chain.0,
      link-IsSegment g.next g.fresh x t xs (IsRising-IsDistinct (after hs) (x ∷ xs) r.order)
          (AreBelow-holds g.fresh (x ∷ xs) r.known) (sym r.ends) r.chain.1,
    );
    ends = sym (last_of-append none g.fresh (x ∷ xs));
    allocated = refl;
    known =
        All-append (λ (y : ℕ). y < suc g.fresh) (x ∷ xs) (g.fresh ∷ [])
          (AreBelow-suc g.fresh (x ∷ xs) r.known) (omega arith, tt);
    granted = AreBelow-suc g.fresh hs r.granted;
    slot = refl;
    channels = r.channels;
    order =
        append-IsRising g.fresh (after hs) (x ∷ xs) (after_lem g.fresh hs r.granted) r.known
          r.order;
    past = r.past;
    idle = λ h. absurd cc;
  },
  refl,
)

pub enter_lem :
    (g : JobGate) (q : JobQueue)
    → Represents g q
    → Represents (enter g).0 (arrive q) × ((enter g).1 ≡ not q.taken)
enter_lem g q r =
    subst
      (λ (a : ℕ).
        Represents (enter g).0 (arrive (record q { arrived = a })) × ((enter g).1 ≡ not q.taken))
      r.allocated
      (enter-Represents g g.held q.taken g.tail q.waiting q.handed
        (subst (λ (a : ℕ). Represents g (record q { arrived = a })) (sym r.allocated) r))
