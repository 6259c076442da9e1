-- ===== src/Trigger/Ledger.antt =====
-- The ledger of a trigger over a sequence of commits (fireTrigger).
use sandman.Prelude.{
  Bytes, ℕ, zero, suc, ◌+◌, ◌*◌, ◌-◌, ◌≤◌, ◌<◌, ◌≡◌, ap, List, [], ◌∷◌, arith, leb, Bool-cases, inl,
  inr,
}
use sandman.Prelude.Map.{Map, get-put_self}
use sandman.Trigger.{drain, ledger_name, load_accum, fire_trigger, or_zero}

drain_lem :
    (n size accum : ℕ)
    → 0 < size
    → accum ≤ n
    → ((drain n size accum).0 * size + (drain n size accum).1 ≡ accum)
      × ((drain n size accum).1 < size)
unfolding drain
drain_lem zero size accum p h = (ground arith, ground arith)
drain_lem (suc n) size accum p h =
    let (e, l) = drain_lem n size (accum - size) p (omega arith) in
    elim (Bool-cases (leb size accum)) [
      | inl b ↦ rw b (grind (arith, e), omega (arith, l))
      | inr b ↦ rw b (grind arith, ground arith)
    ]

abbrev pub sum : List ℕ → ℕ
sum [] = 0
sum (d ∷ ds) = d + sum ds

-- fireTrigger for one commit after the other: the ledger files, and the firings in all.
unfoldable pub fire_all : Map ℕ → Bytes → ℕ → ℕ → List ℕ → Map ℕ × ℕ
unfolding fire_trigger
fire_all files pipeline pos size [] = (files, 0)
fire_all files pipeline pos size (d ∷ ds) =
    let (files', fires) = fire_trigger files pipeline pos size d in
    let (files'', more) = fire_all files' pipeline pos size ds in (files'', fires + more)

module _ (pipeline : Bytes) (pos size : ℕ) where
  fire_trigger_lem :
      (files : Map ℕ) (delta : ℕ)
      → 0 < size
      → ((fire_trigger files pipeline pos size delta).1 * size
            + load_accum (fire_trigger files pipeline pos size delta).0 pipeline pos
          ≡ load_accum files pipeline pos + delta)
        × (load_accum (fire_trigger files pipeline pos size delta).0 pipeline pos < size)
  unfolding fire_trigger
  fire_trigger_lem files delta p =
      let accum = load_accum files pipeline pos + delta in
      let (e, l) = drain_lem accum size accum p (omega arith) in
      let k =
        ap or_zero (get-put_self (ledger_name pipeline pos) (drain accum size accum).1 files) in
      (ground (arith, e, k), ground (arith, l, k))

  -- Over any sequence of commits, a trigger whose threshold is not zero and whose ledger holds less
  -- than the threshold loses no byte and counts none twice: the firings, a threshold each, and what
  -- the ledger holds in the end make up what it held before and the bytes of all commits, and the
  -- ledger again holds less than the threshold.
  pub fire_all_lem :
      (files : Map ℕ) (deltas : List ℕ)
      → load_accum files pipeline pos < size
      → ((fire_all files pipeline pos size deltas).1 * size
            + load_accum (fire_all files pipeline pos size deltas).0 pipeline pos
          ≡ load_accum files pipeline pos + sum deltas)
        × (load_accum (fire_all files pipeline pos size deltas).0 pipeline pos < size)
  unfolding fire_all
  fire_all_lem files [] p = (grind arith, p)
  fire_all_lem files (d ∷ ds) p =
      let (e, l) = fire_trigger_lem files d (omega arith) in
      let (k, m) = fire_all_lem (fire_trigger files pipeline pos size d).0 ds l in
      (grind (arith, e, k), m)
