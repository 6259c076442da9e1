-- ===== src/Jobs/Gate/Queue.antt =====
-- The queue that the gate stands for: the number of jobs that arrived, the waiting ones in the order
-- of their arrival, whether the slot is taken, and the waiters that it was handed to, the latest first.
use sandman.Prelude.{
  ℕ, suc, ◌<◌, ◌≤◌, ◌+◌, length, ◌≡◌, refl, Bool, true, false, not, ◌&&◌, ◌||◌, List, [], ◌∷◌, ◌++◌,
  All, if◌then◌else◌, if_cases, ◌==◌, arith,
}

pub record JobQueue : Type 0 where
  pub arrived : ℕ
  pub waiting : List ℕ
  pub taken : Bool
  pub handed : List ℕ

abbrev pub new_queue : JobQueue
new_queue = record { arrived = 0; waiting = []; taken = false; handed = [] }

-- A job takes the free slot, or waits behind the others.
abbrev pub arrive : JobQueue → JobQueue
arrive q =
    if q.taken
    then record q { arrived = suc q.arrived; waiting = q.waiting ++ q.arrived ∷ [] }
    else record q { arrived = suc q.arrived; taken = true }

abbrev pub holds : ℕ → List ℕ → Bool
holds n [] = false
holds n (m ∷ ms) = (m == n) || holds n ms

abbrev pub erase : ℕ → List ℕ → List ℕ
erase n [] = []
erase n (m ∷ ms) = if m == n then ms else m ∷ erase n ms

abbrev pub leave : ℕ → JobQueue → JobQueue
leave n q = record q { waiting = erase n q.waiting }

-- The slot goes to the first of the waiting jobs.
abbrev pub hand_to : List ℕ → JobQueue → JobQueue
hand_to [] q = record q { taken = false }
hand_to (n ∷ ns) q = record q { waiting = ns; handed = n ∷ q.handed }

abbrev pub hand_on : JobQueue → JobQueue
hand_on q = hand_to q.waiting q

-- The calls, and what they answer.
pub data Call : Type 0 where
  enters releases : Call
  leaves : ℕ → Call

pub data Reply : Type 0 where
  started removed : Bool → Reply
  released : Reply

abbrev pub queue_call : JobQueue → Call → JobQueue × Reply
queue_call q enters = (arrive q, started (not q.taken))
queue_call q (leaves n) = (leave n q, removed (holds n q.waiting))
queue_call q releases = (hand_on q, released)

abbrev pub queue_run : JobQueue → List Call → JobQueue × List Reply
queue_run q [] = (q, [])
queue_run q (c ∷ cs) =
    let now = queue_call q c in let rest = queue_run now.0 cs in (rest.0, now.1 ∷ rest.1)

abbrev pub IsDistinct : List ℕ → Type 0
IsDistinct [] = Unit
IsDistinct (x ∷ xs) = (holds x xs ≡ false) × IsDistinct xs

abbrev pub AreBelow : ℕ → List ℕ → Type 0
AreBelow n xs = All (λ (x : ℕ). x < n) xs

-- Each number from `low` on, and each above the one before it.
abbrev pub IsRising : ℕ → List ℕ → Type 0
IsRising low [] = Unit
IsRising low (x ∷ xs) = (low ≤ x) × IsRising (suc x) xs

abbrev pub after : List ℕ → ℕ
after [] = 0
after (x ∷ xs) = suc x

-- Each number above the one behind it.
abbrev pub IsFalling : List ℕ → Type 0
IsFalling [] = Unit
IsFalling (x ∷ xs) = (after xs ≤ x) × IsFalling xs

IsRising-weaken : (a b : ℕ) (xs : List ℕ) → a ≤ b → IsRising b xs → IsRising a xs
IsRising-weaken a b [] l r = tt
IsRising-weaken a b (x ∷ xs) l r = (omega (arith, r.0), r.1)

IsRising-holds : (x : ℕ) (xs : List ℕ) (low : ℕ) → x < low → IsRising low xs → holds x xs ≡ false
IsRising-holds x [] low l r = refl
IsRising-holds x (y ∷ xs) low l r =
    ground (arith, IsRising-holds x xs (suc y) (omega (arith, r.0)) r.1, r.0)

pub IsRising-IsDistinct : (low : ℕ) (xs : List ℕ) → IsRising low xs → IsDistinct xs
IsRising-IsDistinct low [] r = tt
IsRising-IsDistinct low (x ∷ xs) r =
    (IsRising-holds x xs (suc x) (omega arith) r.1, IsRising-IsDistinct (suc x) xs r.1)

pub erase-IsRising : (n low : ℕ) (xs : List ℕ) → IsRising low xs → IsRising low (erase n xs)
erase-IsRising n low [] r = tt
erase-IsRising n low (x ∷ xs) r =
    if_cases (IsRising low) (x == n) (IsRising-weaken low (suc x) xs (omega (arith, r.0)) r.1)
      (r.0, erase-IsRising n (suc x) xs r.1)

pub append-IsRising :
    (n low : ℕ) (xs : List ℕ)
    → low ≤ n
    → AreBelow n xs
    → IsRising low xs
    → IsRising low (xs ++ n ∷ [])
append-IsRising n low [] l b r = (l, tt)
append-IsRising n low (x ∷ xs) l b r =
    (r.0, append-IsRising n (suc x) xs (omega (arith, b.0)) b.1 r.1)

pub length-IsRising :
    (n low : ℕ) (xs : List ℕ) → low ≤ n → AreBelow n xs → IsRising low xs → length xs + low ≤ n
length-IsRising n low [] l b r = omega (arith, l)
length-IsRising n low (x ∷ xs) l b r =
    omega (arith, r.0, length-IsRising n (suc x) xs (omega (arith, b.0)) b.1 r.1)

pub holds-append : (n : ℕ) (xs ys : List ℕ) → holds n (xs ++ ys) ≡ (holds n xs || holds n ys)
holds-append n [] ys = refl
holds-append n (x ∷ xs) ys = ground (arith, holds-append n xs ys)

pub holds-erase :
    (n m : ℕ) (xs : List ℕ) → IsDistinct xs → holds m (erase n xs) ≡ (holds m xs && not (m == n))
holds-erase n m [] d = refl
holds-erase n m (x ∷ xs) d = ground (arith, holds-erase n m xs d.1, d.0)

pub erase_absent : (n : ℕ) (xs : List ℕ) → holds n xs ≡ false → erase n xs ≡ xs
erase_absent n [] h = refl
erase_absent n (x ∷ xs) h = ground (arith, erase_absent n xs)

pub AreBelow-holds : (n : ℕ) (xs : List ℕ) → AreBelow n xs → holds n xs ≡ false
AreBelow-holds n [] h = refl
AreBelow-holds n (x ∷ xs) h = ground (arith, AreBelow-holds n xs h.1, h.0)

module _ {κ} (P : ℕ → Type κ) where
  pub erase-All : (n : ℕ) (xs : List ℕ) → All P xs → All P (erase n xs)
  erase-All n [] h = tt
  erase-All n (x ∷ xs) h = if_cases (All P) (x == n) h.1 (h.0, erase-All n xs h.1)
