-- ===== src/Store/Names/Refs.antt =====
-- Branch names that are no file of refs/.
use mathlib.Core.List.{append-nil, append_assoc}
use sandman.Prelude.{
  Bytes, codes, ◌≡◌, ap, ◌∙◌, true, false, none, List, [], ◌∷◌, ◌++◌, arith, slash, contains_any,
  split, split_from,
}
use sandman.Store.Names.{valid_branch_name, enter_all, ref_file}

split_from-name :
    (acc a : Bytes)
    → contains_any a (codes "/\\") ≡ false
    → split_from slash acc a ≡ (acc ++ a) ∷ []
unfolding split_from contains_any
split_from-name acc [] h = ap (λ (x : Bytes). x ∷ []) (ground (arith, append-nil acc))
split_from-name acc (c ∷ a) h =
    ground (arith, split_from-name (acc ++ c ∷ []) a, append_assoc acc (c ∷ []) a)

split_from-slash :
    (acc a b : Bytes)
    → contains_any a (codes "/\\") ≡ false
    → split_from slash acc (a ++ slash ∷ b) ≡ (acc ++ a) ∷ split_from slash [] b
unfolding split_from contains_any
split_from-slash acc [] b h = ground (arith, append-nil acc)
split_from-slash acc (c ∷ a) b h =
    ground (arith, split_from-slash (acc ++ c ∷ []) a b, append_assoc acc (c ∷ []) a)

-- A name in a directory below refs/.
pub ref_file-slash :
    (a b : Bytes)
    → valid_branch_name a ≡ true
    → valid_branch_name b ≡ true
    → ref_file (a ++ slash ∷ b) ≡ none
unfolding ref_file valid_branch_name split enter_all
ref_file-slash a b h k =
    let apart =
      split_from-slash [] a b (ground arith)
      ∙ ap (λ (l : List Bytes). a ∷ l) (split_from-name [] b (ground arith)) in
    rw apart (ground arith)
