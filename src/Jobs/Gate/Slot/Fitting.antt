-- ===== src/Jobs/Gate/Slot/Fitting.antt =====
-- A job's phase against its place in the queue, the slot and its channel.
use mathlib.Core.Path.{subst}
use sandman.Prelude.{
  ℕ, ◌≡◌, ◌⊎◌, refl, inl, inr, Bool, true, false, not, ◌&&◌, ◌||◌, Option, none, some, ◌==◌, ==_iff,
  arith,
}
use sandman.Jobs.Gate.{same_node}
use sandman.Jobs.Gate.Slot.{Phase, away, in_queue, too_late, entered, declining, running}

-- A job's phase against: does it wait in the queue, does it own the slot, is its channel closed?
abbrev pub fitting : Phase → Bool → Bool → Bool → Bool
fitting away q o c = not q && not o
fitting in_queue q o c = (q && (not o && not c)) || (not q && (o && c))
fitting too_late q o c = not q && o
fitting entered q o c = not q && o
fitting declining q o c = not q && o
fitting running q o c = not q && o

abbrev pub is_held_by : Option ℕ → Bool
is_held_by none = false
is_held_by (some n) = true

abbrev pub is_away : Phase → Bool
is_away away = true
is_away p = false

-- The phases of a job that owns the slot, but for one that has not woken up yet.
abbrev pub has_slot : Phase → Bool
has_slot away = false
has_slot in_queue = false
has_slot p = true

pub fitting-has_slot :
    (p : Phase) (q o c : Bool)
    → has_slot p ≡ true
    → fitting p q o c ≡ true
    → (q ≡ false) × (o ≡ true) × (is_away p ≡ false)
fitting-has_slot away q o c h f = absurd cc
fitting-has_slot in_queue q o c h f = absurd cc
fitting-has_slot too_late q o c h f = (ground arith, ground arith, refl)
fitting-has_slot entered q o c h f = (ground arith, ground arith, refl)
fitting-has_slot declining q o c h f = (ground arith, ground arith, refl)
fitting-has_slot running q o c h f = (ground arith, ground arith, refl)

pub has_slot-fitting : (p : Phase) (c : Bool) → has_slot p ≡ true → fitting p false true c ≡ true
has_slot-fitting away c h = absurd cc
has_slot-fitting in_queue c h = absurd cc
has_slot-fitting too_late c h = refl
has_slot-fitting entered c h = refl
has_slot-fitting declining c h = refl
has_slot-fitting running c h = refl

-- A job that waits in the queue is handed the slot.
pub fitting-handed :
    (p : Phase) (q o c : Bool)
    → q ≡ true
    → fitting p q o c ≡ true
    → fitting p false true true ≡ true
fitting-handed in_queue q o c e f = refl
fitting-handed away q o c e f = ground arith
fitting-handed too_late q o c e f = refl
fitting-handed entered q o c e f = refl
fitting-handed declining q o c e f = refl
fitting-handed running q o c e f = refl

pub nobody : (o : Option ℕ) (m : ℕ) → is_held_by o ≡ false → same_node o m ≡ false
nobody none m h = refl
nobody (some k) m h = absurd cc

pub somebody : (o : Option ℕ) (m : ℕ) → same_node o m ≡ true → is_held_by o ≡ true
somebody none m h = h
somebody (some k) m h = refl

pub fitting-kept :
    (p : Phase) (b q o c : Bool)
    → b ≡ false
    → o ≡ false
    → fitting p (b || q) o c ≡ true
    → fitting p q b (b || c) ≡ true
fitting-kept p true q o c e f g = absurd cc
fitting-kept p false q o c e f g = subst (λ (x : Bool). fitting p q x c ≡ true) f g

pub other_owner :
    (o : Option ℕ) (n m : ℕ) → same_node o n ≡ true → (m == n) ≡ false → same_node o m ≡ false
other_owner none n m h e = refl
other_owner (some k) n m h e = ground (arith, ==_iff k n, ==_iff k m)

pub fitting-in_queue :
    (p : Phase) (q o c : Bool)
    → p ≡ in_queue
    → fitting p q o c ≡ true
    → ((q ≡ true) × (o ≡ false) × (c ≡ false)) ⊎ ((q ≡ false) × (o ≡ true) × (c ≡ true))
fitting-in_queue p q o c e f =
    in_queue_cases q o c (subst (λ (r : Phase). fitting r q o c ≡ true) e f)
  where
    in_queue_cases :
        (q o c : Bool)
        → fitting in_queue q o c ≡ true
        → ((q ≡ true) × (o ≡ false) × (c ≡ false)) ⊎ ((q ≡ false) × (o ≡ true) × (c ≡ true))
    in_queue_cases true false false f = inl (refl, refl, refl)
    in_queue_cases false true true f = inr (refl, refl, refl)
    in_queue_cases true true c f = absurd cc
    in_queue_cases true false true f = absurd cc
    in_queue_cases false false c f = absurd cc
    in_queue_cases false true false f = absurd cc
