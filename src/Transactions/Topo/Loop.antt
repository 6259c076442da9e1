-- ===== src/Transactions/Topo/Loop.antt =====
-- What the rounds of the loop keep.
use mathlib.Core.List.{append_assoc}
use mathlib.Core.Path.{subst}
use sandman.Prelude.{
  Bytes, ℕ, zero, suc, ◌+◌, ◌≡◌, refl, sym, ap, ◌∙◌, inl, inr, true, false, ◌||◌, ◌&&◌, List, [],
  ◌∷◌, ◌++◌, if◌then◌else◌, ◌==◌, eqs, eqs_iff, eqs_refl, Bool-cases, arith,
}
use sandman.Prelude.Map.{Map, put}
use sandman.Prelude.Sort.{mem}
use sandman.Prelude.Decimal.{Signed, plus}
use sandman.Transactions.Topo.{listed, counted, is_zero, decrement, settle}
use sandman.Prelude.Unique.{IsUnique, mem-append, append-IsUnique}
use sandman.Transactions.Topo.Counts.{count_in, missing, counted-put}

-- Each name's dependencies stand before it, in `seen` or in the list.
abbrev pub AreSettled : List Bytes → List Bytes → Type 0
AreSettled seen [] = Unit
AreSettled seen (d ∷ ds) = (mem d seen ≡ true) × AreSettled seen ds

abbrev pub IsSorted : Map (List Bytes) → List Bytes → List Bytes → Type 0
IsSorted deps seen [] = Unit
IsSorted deps seen (n ∷ ns) = AreSettled seen (listed deps n) × IsSorted deps (seen ++ n ∷ []) ns

pub missing-AreSettled : (order ds : List Bytes) → missing order ds ≡ 0 → AreSettled order ds
unfolding missing
missing-AreSettled order [] h = tt
missing-AreSettled order (d ∷ ds) h = (ground arith, missing-AreSettled order ds (ground arith))

nonzero : (k : ℕ) → (suc k == 0) ≡ false
nonzero k = ground arith

pub plus_inj : {a b : ℕ} → plus a ≡ plus b → a ≡ b
plus_inj e = cc

module _ (names : List Bytes) (deps : Map (List Bytes)) where
  -- The names `order` are placed, `placed` holds them and the ready ones behind them, and of the
  -- consumers of the name placed last `cs` are still to be counted down.
  pub record IsCounted (order placed cs : List Bytes) (indeg : Map Signed) : Type 0 where
    pub left :
        (c : Bytes)
        → mem c names ≡ true
        → counted indeg c ≡ plus (missing order (listed deps c) + count_in c cs)
    pub queued : (c : Bytes) → mem c names ≡ true → mem c placed ≡ is_zero (counted indeg c)
    pub staged : (c : Bytes) → mem c placed ≡ true → mem c names ≡ true
    pub unique : IsUnique placed
    pub to_come : (c : Bytes) → mem c cs ≡ true → mem c names ≡ true

  -- The consumer `c` has `k` dependencies left.
  module _ (order placed cs : List Bytes) (c : Bytes) (k : ℕ) (indeg : Map Signed)
      (i : IsCounted order placed (c ∷ cs) indeg) (e : counted indeg c ≡ plus (suc k)) where
    left_at :
        (d : Bytes)
        → mem d names ≡ true
        → counted (put c (plus k) indeg) d ≡ plus (missing order (listed deps d) + count_in d cs)
    unfolding count_in
    left_at d h = counted-put c d (plus k) indeg ∙ elim (Bool-cases (eqs c d)) [
      | inl b ↦ rw b (
          ap plus (
            let j : plus (suc k) ≡ plus (missing order (listed deps d) + suc (count_in d cs)) =
              sym e ∙ rw ((eqs_iff c d).0 b) (i.left d h ∙ rw b refl) in
            omega (arith, plus_inj j)))
      | inr b ↦ rw b (i.left d h ∙ rw b refl)
    ]

    not_queued : mem c placed ≡ false
    unfolding mem
    not_queued = i.queued c (i.to_come c (rw (eqs_refl c) refl)) ∙ rw e (ground arith)

    to_come_at : (d : Bytes) → mem d cs ≡ true → mem d names ≡ true
    unfolding mem
    to_come_at d h = i.to_come d (ground arith)

    queued_at :
        (now : List Bytes)
        → ((d : Bytes) → mem d now ≡ (mem d placed || (eqs c d && (k == 0))))
        → (d : Bytes) → mem d names ≡ true
        → mem d now ≡ is_zero (counted (put c (plus k) indeg) d)
    queued_at now m d h = m d ∙ elim (Bool-cases (eqs c d)) [
      | inl b ↦
          rw (counted-put c d (plus k) indeg, b) (rw⁻¹ ((eqs_iff c d).0 b) (rw not_queued refl))
      | inr b ↦ rw (counted-put c d (plus k) indeg, b) (ground (arith, i.queued d h))
    ]

  settle_last :
      (order placed cs : List Bytes) (c : Bytes) (indeg : Map Signed)
      → IsCounted order placed (c ∷ cs) indeg
      → counted indeg c ≡ plus 1
      → IsCounted order (placed ++ c ∷ []) cs (put c (plus 0) indeg)
  unfolding mem
  settle_last order placed cs c indeg i e = record {
    left = left_at order placed cs c 0 indeg i e;
    queued =
        queued_at order placed cs c 0 indeg i e (placed ++ c ∷ [])
          (λ d. mem-append d placed (c ∷ []) ∙ ground arith);
    staged = λ d h.
        let j = i.to_come c (rw (eqs_refl c) refl) in
        ground (arith, mem-append d placed (c ∷ []), i.staged d, j, eqs_iff c d);
    unique = append-IsUnique c placed (not_queued order placed cs c 0 indeg i e) i.unique;
    to_come = to_come_at order placed cs c 0 indeg i e;
  }

  settle_more :
      (order placed cs : List Bytes) (c : Bytes) (k : ℕ) (indeg : Map Signed)
      → IsCounted order placed (c ∷ cs) indeg
      → counted indeg c ≡ plus (suc (suc k))
      → IsCounted order placed cs (put c (plus (suc k)) indeg)
  settle_more order placed cs c k indeg i e = record {
    left = left_at order placed cs c (suc k) indeg i e;
    queued = queued_at order placed cs c (suc k) indeg i e placed (λ d. ground arith);
    staged = i.staged;
    unique = i.unique;
    to_come = to_come_at order placed cs c (suc k) indeg i e;
  }

  settle_step :
      (order ready cs : List Bytes) (c : Bytes) (indeg : Map Signed)
      → IsCounted order (order ++ ready) (c ∷ cs) indeg
      → IsCounted order
          (order ++ (if is_zero (decrement (counted indeg c)) then ready ++ c ∷ [] else ready))
          cs
          (put c (decrement (counted indeg c)) indeg)
  unfolding count_in mem
  settle_step order ready cs c indeg i =
      by_count (missing order (listed deps c) + count_in c cs)
        (i.left c (i.to_come c (rw (eqs_refl c) refl)) ∙ rw (eqs_refl c) (ap plus (omega arith)))
    where
      by_count :
          (k : ℕ)
          → counted indeg c ≡ plus (suc k)
          → IsCounted order
              (order ++ (if is_zero (decrement (counted indeg c)) then ready ++ c ∷ [] else ready))
              cs
              (put c (decrement (counted indeg c)) indeg)
      by_count zero e = rw e (
          subst (λ (p : List Bytes). IsCounted order p cs (put c (plus 0) indeg))
            (append_assoc order ready (c ∷ [])) (settle_last order (order ++ ready) cs c indeg i e))
      by_count (suc k) e = rw (e, nonzero k) (settle_more order (order ++ ready) cs c k indeg i e)

  pub settle-IsCounted :
      (order ready cs : List Bytes) (indeg : Map Signed)
      → IsCounted order (order ++ ready) cs indeg
      → IsCounted order (order ++ (settle cs indeg ready).1) [] (settle cs indeg ready).0
  unfolding settle
  settle-IsCounted order ready [] indeg i = i
  settle-IsCounted order ready (c ∷ cs) indeg i =
      settle-IsCounted order
        (if is_zero (decrement (counted indeg c)) then ready ++ c ∷ [] else ready) cs
        (put c (decrement (counted indeg c)) indeg) (settle_step order ready cs c indeg i)
