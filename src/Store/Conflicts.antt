-- ===== src/Store/Conflicts.antt =====
-- pathConflict against the conflicts of a view.
use mathlib.Core.List.{append_assoc}
use sandman.Prelude.{
  Bytes, ℕ, ◌<◌, ◌≡◌, ◌≢◌, refl, sym, ap, ◌∙◌, Bool, true, false, ◌||◌, List, [], ◌∷◌, ◌++◌, arith,
  eqs, eqs_refl, has_prefix, has_prefix_elim, drop_prefix, if◌then◌else◌, lts, slash,
}
use sandman.Prelude.Map.{keys}
use sandman.Prelude.Sort.{sort, mem, mem-sort}
use sandman.Store.Data.{ViewEntry}
use sandman.Store.View.{View, conflict_in, path_conflict}

-- `c` is one of the paths, and a directory of another.
abbrev IsConflict : List Bytes → Bytes → Type 0
IsConflict ps c =
    (mem c ps ≡ true) × (q : Bytes) × (mem q ps ≡ true) × (has_prefix (c ++ slash ∷ []) q ≡ true)

IsConflict-cons :
    (p : Bytes) (ps : List Bytes) (c : Bytes) → IsConflict ps c → IsConflict (p ∷ ps) c
unfolding mem
IsConflict-cons p ps c (m, q, n, k) = (or_true (eqs p c) m, q, or_true (eqs p q) n, k)
  where
    or_true : (b : Bool) {d : Bool} → d ≡ true → (b || d) ≡ true
    or_true b h = ground arith

choose :
    (ps : List Bytes) (b : Bool) (p c : Bytes)
    → (if b then p else c) ≢ []
    → (b ≡ true → IsConflict ps p)
    → (c ≢ [] → IsConflict ps c)
    → IsConflict ps (if b then p else c)
choose ps true p c h x y = x refl
choose ps false p c h x y = y h

here :
    (p q : Bytes) (rest : List Bytes)
    → has_prefix (p ++ slash ∷ []) q ≡ true
    → IsConflict (p ∷ q ∷ rest) p
unfolding mem
here p q rest e = (ground (arith, eqs_refl p), q, ground (arith, eqs_refl q), e)

conflict_in_sound : (ps : List Bytes) → conflict_in ps ≢ [] → IsConflict ps (conflict_in ps)
unfolding conflict_in
conflict_in_sound [] h = absurd (h refl)
conflict_in_sound (p ∷ []) h = absurd (h refl)
conflict_in_sound (p ∷ q ∷ rest) h =
    choose (p ∷ q ∷ rest) (has_prefix (p ++ slash ∷ []) q) p (conflict_in (q ∷ rest)) h
      (here p q rest)
      (λ z. IsConflict-cons p (q ∷ rest) (conflict_in (q ∷ rest)) (conflict_in_sound (q ∷ rest) z))

-- A path that pathConflict reports is a file of the view, and another file of the view lies below it.
pub path_conflict_sound :
    (v : View)
    → path_conflict v ≢ []
    → (mem (path_conflict v) (keys v) ≡ true)
      × (rest : Bytes) × (mem (path_conflict v ++ slash ∷ rest) (keys v) ≡ true)
unfolding path_conflict
path_conflict_sound v h =
    let (m, q, n, k) = conflict_in_sound (sort (keys v)) h in
    let p = path_conflict v in
    (
      sym (mem-sort p (keys v)) ∙ m,
      drop_prefix (p ++ slash ∷ []) q,
      ap (λ (x : Bytes). mem x (keys v))
            (sym (append_assoc p (slash ∷ []) (drop_prefix (p ++ slash ∷ []) q))
              ∙ sym (has_prefix_elim (p ++ slash ∷ []) q k))
          ∙ sym (mem-sort q (keys v))
          ∙ n,
    )

lts_longer : (x : Bytes) (b : ℕ) (z : Bytes) → lts (x ++ b ∷ z) x ≡ false
unfolding lts
lts_longer [] b z = refl
lts_longer (c ∷ x) b z = ground (arith, lts_longer x b z)

lts_after : (x : Bytes) (b c : ℕ) (z y : Bytes) → b < c → lts (x ++ c ∷ y) (x ++ b ∷ z) ≡ false
unfolding lts
lts_after [] b c z y h = ground arith
lts_after (d ∷ x) b c z y h = ground (arith, lts_after x b c z y h)

no_prefix :
    (x : Bytes) (b c : ℕ) (z y : Bytes) → b < c → has_prefix (x ++ c ∷ z) (x ++ b ∷ y) ≡ false
unfolding has_prefix
no_prefix [] b c z y h = ground arith
no_prefix (d ∷ x) b c z y h = ground (arith, no_prefix x b c z y h)

no_prefix_after :
    (x : Bytes) (b c : ℕ) (z y : Bytes)
    → b < c
    → has_prefix ((x ++ b ∷ z) ++ slash ∷ []) (x ++ c ∷ y) ≡ false
unfolding has_prefix
no_prefix_after [] b c z y h = ground arith
no_prefix_after (d ∷ x) b c z y h = ground (arith, no_prefix_after x b c z y h)

-- Where a third file sorts between a file `x` and a file below it, since its name goes on from `x`
-- with a byte less than '/', pathConflict reports nothing, though `x` is both a file and a
-- directory.
pub path_conflict_unseen :
    (x z y : Bytes) (b : ℕ) (e f g : ViewEntry)
    → b < slash
    → path_conflict ((x, e) ∷ (x ++ b ∷ z, f) ∷ (x ++ slash ∷ y, g) ∷ []) ≡ []
unfolding path_conflict conflict_in sort keys
path_conflict_unseen x z y b e f g h = ground (
  arith,
  lts_longer x b z,
  lts_after x b slash z y h,
  no_prefix x b slash [] z h,
  no_prefix_after x b slash z y h,
)
