-- ===== src/Hosts/Busy.antt =====
-- Which devices are allocated after each operation.
use sandman.Prelude.{
  Bytes, ℕ, ◌≡◌, refl, Bool, false, not, ◌&&◌, ◌||◌, none, some, List, [], ◌∷◌, arith,
  if◌then◌else◌, eqs, eqs_iff, ◌==◌, inl, inr, Option-cases,
}
use sandman.Prelude.Map.{Map, get, put, get-put, get-remove}
use sandman.Hosts.{
  GpuInfo, HostRegistry, mem_index, busy_of, keep_busy, put_busy, register, add_indices, without,
  release, drop_host,
}

-- Is the device allocated?
abbrev pub is_busy : HostRegistry → Bytes → ℕ → Bool
is_busy r n i = mem_index i (busy_of r n)

-- Does the registration report the device?
abbrev pub reports : ℕ → List GpuInfo → Bool
reports i [] = false
reports i (g ∷ gs) = (i == g.index) || reports i gs

keep_busy_lem :
    (i : ℕ) (b : List ℕ) (gs : List GpuInfo)
    → mem_index i (keep_busy b gs) ≡ (mem_index i b && reports i gs)
unfolding keep_busy
keep_busy_lem i b [] = ground arith
keep_busy_lem i b (g ∷ gs) = ground (arith, keep_busy_lem i b gs)

without_lem :
    (i : ℕ) (is b : List ℕ) → mem_index i (without is b) ≡ (mem_index i b && not (mem_index i is))
unfolding without
without_lem i is [] = refl
without_lem i is (j ∷ js) = ground (arith, without_lem i is js)

add_indices_lem :
    (i : ℕ) (is b : List ℕ) → mem_index i (add_indices is b) ≡ (mem_index i is || mem_index i b)
unfolding add_indices
add_indices_lem i [] b = refl
add_indices_lem i (j ∷ js) b =
    ground (arith, add_indices_lem i js (if mem_index j b then b else j ∷ b))

abbrev set_at : Map (List ℕ) → Bytes → List ℕ
set_at m n = elim (get n m) [ none ↦ [] | some b ↦ b ]

put_busy_lem :
    (name n : Bytes) (b : List ℕ) (m : Map (List ℕ))
    → set_at (put_busy name b m) n ≡ (if eqs name n then b else set_at m n)
put_busy_lem name n [] m = ground (arith, get-remove name n m)
put_busy_lem name n (i ∷ is) m = ground (arith, get-put name n (i ∷ is) m)

module _ (r : HostRegistry) (n : Bytes) (i : ℕ) where
  pub is_busy-register :
      (seen name addr : Bytes) (labels : List Bytes) (gpus : List GpuInfo)
      → is_busy (register r seen name addr labels gpus).0 n i
        ≡ (is_busy r n i && (not (eqs name n) || reports i gpus))
  unfolding register
  is_busy-register seen name addr labels gpus = elim (Option-cases (get name r.busy)) [
    | inl e ↦ ground (arith, e, eqs_iff name n)
    | inr (b, e) ↦ ground (
      arith,
      e,
      eqs_iff name n,
      put_busy_lem name n (keep_busy b gpus) r.busy,
      keep_busy_lem i b gpus,
    )
  ]

  pub is_busy-release :
      (name : Bytes) (gpus : List ℕ)
      → is_busy (release r name gpus) n i ≡ (is_busy r n i && not (eqs name n && mem_index i gpus))
  unfolding release
  is_busy-release name [] = ground arith
  is_busy-release name (g ∷ gs) = elim (Option-cases (get name r.busy)) [
    | inl e ↦ ground (arith, e, eqs_iff name n)
    | inr (b, e) ↦ ground (
      arith,
      e,
      eqs_iff name n,
      put_busy_lem name n (without (g ∷ gs) b) r.busy,
      without_lem i (g ∷ gs) b,
    )
  ]

  pub is_busy-drop_host :
      (name : Bytes) → is_busy (drop_host r name) n i ≡ (is_busy r n i && not (eqs name n))
  unfolding drop_host
  is_busy-drop_host name = ground (arith, get-remove name n r.busy)

  -- A choice adds the devices that it hands out to those of its host.
  pub is_busy-reserved :
      (name : Bytes) (got : List ℕ)
      → is_busy (record r { busy = put name (add_indices got (busy_of r name)) r.busy }) n i
        ≡ (is_busy r n i || (eqs name n && mem_index i got))
  is_busy-reserved name got = ground (
    arith,
    eqs_iff name n,
    get-put name n (add_indices got (busy_of r name)) r.busy,
    add_indices_lem i got (busy_of r name),
  )
