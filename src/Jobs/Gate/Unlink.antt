-- ===== src/Jobs/Gate/Unlink.antt =====
-- The loop of remove along the list of nodes.
use sandman.Prelude.{
  ℕ, zero, suc, ◌<◌, ◌≡◌, refl, ◌∙◌, inl, inr, false, Option, none, some, List, [], ◌∷◌, length,
  Bool-cases, if◌then◌else◌, ◌==◌, ==_iff, arith,
}
use sandman.Jobs.Gate.{JobGate, set_at, remove_from, same_node, unlink}
use sandman.Jobs.Gate.Queue.{holds, erase, IsDistinct}

-- The nodes from `h` on, by their `next`.
abbrev pub IsSegment : (ℕ → Option ℕ) → Option ℕ → List ℕ → Type 0
IsSegment next h [] = h ≡ none
IsSegment next h (x ∷ xs) = (h ≡ some x) × IsSegment next (next x) xs

abbrev pub last_of : Option ℕ → List ℕ → Option ℕ
last_of d [] = d
last_of d (x ∷ xs) = last_of (some x) xs

set_at_other {ℓ} :
    {A : Type ℓ} (p m : ℕ) (v : A) (f : ℕ → A) → (m == p) ≡ false → set_at p v f m ≡ f m
set_at_other p m v f h = rw h refl

pub set_at_self {ℓ} : {A : Type ℓ} (p : ℕ) (v : A) (f : ℕ → A) → set_at p v f p ≡ v
set_at_self p v f = rw ((==_iff p p).1 refl) refl

pub IsSegment-set_at :
    (next : ℕ → Option ℕ) (p : ℕ) (v h : Option ℕ) (xs : List ℕ)
    → holds p xs ≡ false
    → IsSegment next h xs
    → IsSegment (set_at p v next) h xs
IsSegment-set_at next p v h [] d s = s
IsSegment-set_at next p v h (x ∷ xs) d s =
    let e : (x == p) ≡ false = ground arith in
    (s.0, rw e (IsSegment-set_at next p v (next x) xs (ground arith) s.1))

-- The list behind `p` held `xs` and holds `ys` now; nothing else has changed.
pub record Removed (g g' : JobGate) (p : ℕ) (xs ys : List ℕ) : Type 0 where
  pub outside : (m : ℕ) → (m == p) ≡ false → holds m xs ≡ false → g'.next m ≡ g.next m
  pub chain : IsSegment g'.next (g'.next p) ys
  pub ends : g'.tail ≡ last_of (some p) ys
  pub front : g'.head ≡ g.head
  pub allocated : g'.fresh ≡ g.fresh
  pub slot : g'.held ≡ g.held
  pub channels : g'.closed ≡ g.closed

pub last_of_other :
    (x y : ℕ) (xs : List ℕ)
    → (y == x) ≡ false
    → holds x xs ≡ false
    → same_node (last_of (some y) xs) x ≡ false
last_of_other x y [] e h = e
last_of_other x y (z ∷ xs) e h = last_of_other x z xs (ground arith) (ground arith)

pub last_of_tail :
    (x : ℕ) (d : Option ℕ) (xs : List ℕ)
    → holds x xs ≡ false
    → (if same_node (last_of (some x) xs) x then d else last_of (some x) xs) ≡ last_of d xs
last_of_tail x d [] h = rw ((==_iff x x).1 refl) refl
last_of_tail x d (y ∷ xs) h = rw (last_of_other x y xs (ground arith) (ground arith)) refl

unlink_lem :
    (g : JobGate) (p x : ℕ) (xs : List ℕ)
    → IsDistinct (p ∷ x ∷ xs)
    → IsSegment g.next (g.next x) xs
    → g.tail ≡ last_of (some x) xs
    → Removed g (unlink (some p) x g) p (x ∷ xs) xs
unlink_lem g p x xs d s t = record {
  outside = λ m e h. set_at_other p m (g.next x) g.next e;
  chain =
      rw (set_at_self p (g.next x) g.next)
        (IsSegment-set_at g.next p (g.next x) (g.next x) xs (ground arith) s);
  ends = rw t (last_of_tail x (some p) xs d.1.0);
  front = refl;
  allocated = refl;
  slot = refl;
  channels = refl;
}

pub remove_from_lem :
    (k : ℕ) (g : JobGate) (p n : ℕ) (xs : List ℕ)
    → length xs < k
    → IsDistinct (p ∷ xs)
    → IsSegment g.next (g.next p) xs
    → g.tail ≡ last_of (some p) xs
    → Removed g (remove_from k (some p) (g.next p) n g).0 p xs (erase n xs)
      × ((remove_from k (some p) (g.next p) n g).1 ≡ holds n xs)
unfolding remove_from
remove_from_lem zero g p n xs l d s t = absurd (omega arith)
remove_from_lem (suc k) g p n [] l d s t = rw s (unmoved, refl)
  where
    unmoved : Removed g g p [] []
    unmoved = record {
      outside = λ m e h. refl;
      chain = s;
      ends = t;
      front = refl;
      allocated = refl;
      slot = refl;
      channels = refl;
    }
remove_from_lem (suc k) g p n (x ∷ xs) l d s t = rw s.0 (elim (Bool-cases (x == n)) [
  | inl e ↦ rw e (unlink_lem g p x xs d s.1 t, refl)
  | inr e ↦ rw e (further (remove_from_lem k g x n xs (omega arith) d.1 s.1 t))
])
  where
    further :
        Removed g (remove_from k (some x) (g.next x) n g).0 x xs (erase n xs)
          × ((remove_from k (some x) (g.next x) n g).1 ≡ holds n xs)
        → Removed g (remove_from k (some x) (g.next x) n g).0 p (x ∷ xs) (x ∷ erase n xs)
          × ((remove_from k (some x) (g.next x) n g).1 ≡ holds n xs)
    further (r, found) =
        let same = r.outside p (ground arith) (ground arith) in
        (
          record {
            outside = λ m e h. r.outside m (ground (arith, ==_iff m x, ==_iff x m)) (ground arith);
            chain = (same ∙ s.0, r.chain);
            ends = r.ends;
            front = r.front;
            allocated = r.allocated;
            slot = r.slot;
            channels = r.channels;
          },
          found,
        )
