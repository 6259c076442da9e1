-- ===== src/Hosts/Picking.antt =====
-- What pickAndReserve hands out, and what it means that it hands out nothing.
use sandman.Prelude.{
  Bytes, ℕ, zero, suc, ◌+◌, ap, if◌then◌else◌, some_inj, ◌<◌, ◌≤◌, ◌≡◌, refl, ◌∙◌, inl, inr, true,
  not, ◌&&◌, ◌||◌, none, some, List, [], ◌∷◌, arith, eqs, eqs_iff, ◌==◌, take, length, All,
  Bool-cases, ltb,
}
use mathlib.Core.Path.{subst}
use sandman.Prelude.Map.{Map, get}
use sandman.Prelude.Order.{IsOrdered, get-All}
use sandman.Hosts.{
  GpuInfo, ExecHost, HostRegistry, Clock, Cand, mem_index, busy_of, free_indices, insert_int,
  sort_ints, free_of, is_live, bears, cands, before, insert_cand, sort_cands, first_fit, choose,
}
use sandman.Hosts.Busy.{is_busy, reports}

free_indices_lem :
    (i : ℕ) (b : List ℕ) (gs : List GpuInfo)
    → mem_index i (free_indices b gs) ≡ (reports i gs && not (mem_index i b))
unfolding free_indices
free_indices_lem i b [] = refl
free_indices_lem i b (g ∷ gs) = ground (arith, free_indices_lem i b gs)

mem-insert_int :
    (i j : ℕ) (js : List ℕ) → mem_index i (insert_int j js) ≡ ((i == j) || mem_index i js)
unfolding insert_int
mem-insert_int i j [] = refl
mem-insert_int i j (k ∷ ks) = ground (arith, mem-insert_int i j ks)

mem-sort_ints : (i : ℕ) (is : List ℕ) → mem_index i (sort_ints is) ≡ mem_index i is
unfolding sort_ints
mem-sort_ints i [] = refl
mem-sort_ints i (j ∷ js) = ground (arith, mem-insert_int i j (sort_ints js), mem-sort_ints i js)

-- How many of the reported devices are not allocated.
abbrev pub idle : HostRegistry → Bytes → List GpuInfo → ℕ
idle r n [] = 0
idle r n (g ∷ gs) = (if is_busy r n g.index then 0 else 1) + idle r n gs

length-insert_int : (i : ℕ) (is : List ℕ) → length (insert_int i is) ≡ suc (length is)
unfolding insert_int
length-insert_int i [] = refl
length-insert_int i (j ∷ js) = ground (arith, length-insert_int i js)

length-sort_ints : (is : List ℕ) → length (sort_ints is) ≡ length is
unfolding sort_ints
length-sort_ints [] = refl
length-sort_ints (i ∷ is) = length-insert_int i (sort_ints is) ∙ ap suc (length-sort_ints is)

length-free_indices :
    (r : HostRegistry) (n : Bytes) (gs : List GpuInfo)
    → length (free_indices (busy_of r n) gs) ≡ idle r n gs
unfolding free_indices
length-free_indices r n [] = refl
length-free_indices r n (g ∷ gs) = ground (arith, length-free_indices r n gs)

pub length-free_of :
    (r : HostRegistry) (n : Bytes) (h : ExecHost) → length (free_of r n h) ≡ idle r n h.gpus
length-free_of r n h =
    length-sort_ints (free_indices (busy_of r n) h.gpus) ∙ length-free_indices r n h.gpus

pub free_of_lem :
    (r : HostRegistry) (n : Bytes) (h : ExecHost) (i : ℕ)
    → mem_index i (free_of r n h) ≡ (reports i h.gpus && not (is_busy r n i))
free_of_lem r n h i =
    mem-sort_ints i (free_indices (busy_of r n) h.gpus) ∙ free_indices_lem i (busy_of r n) h.gpus

-- How often the device is among the indices, and how often the host reports it.
abbrev pub times : ℕ → List ℕ → ℕ
times i [] = 0
times i (j ∷ js) = (if i == j then 1 else 0) + times i js

abbrev pub times_reported : ℕ → List GpuInfo → ℕ
times_reported i [] = 0
times_reported i (g ∷ gs) = (if i == g.index then 1 else 0) + times_reported i gs

times-free_indices :
    (i : ℕ) (b : List ℕ) (gs : List GpuInfo) → times i (free_indices b gs) ≤ times_reported i gs
unfolding free_indices
times-free_indices i b [] = omega arith
times-free_indices i b (g ∷ gs) = ground (arith, times-free_indices i b gs)

times-insert_int :
    (i j : ℕ) (js : List ℕ) → times i (insert_int j js) ≡ (if i == j then 1 else 0) + times i js
unfolding insert_int
times-insert_int i j [] = refl
times-insert_int i j (k ∷ ks) = ground (arith, times-insert_int i j ks)

times-sort_ints : (i : ℕ) (is : List ℕ) → times i (sort_ints is) ≡ times i is
unfolding sort_ints
times-sort_ints i [] = refl
times-sort_ints i (j ∷ js) =
    times-insert_int i j (sort_ints js)
    ∙ ap (λ (n : ℕ). (if i == j then 1 else 0) + n) (times-sort_ints i js)

times-take : (i n : ℕ) (is : List ℕ) → times i (take n is) ≤ times i is
times-take i zero is = omega arith
times-take i (suc n) [] = omega arith
times-take i (suc n) (j ∷ js) = let k = times-take i n js in omega (arith, k)

-- The first free devices hold none more often than the host reports it.
pub times-free_of :
    (r : HostRegistry) (name : Bytes) (h : ExecHost) (i n : ℕ)
    → times i (take n (free_of r name h)) ≤ times_reported i h.gpus
times-free_of r name h i n =
    let few = times-take i n (free_of r name h) in
    let sorted = times-sort_ints i (free_indices (busy_of r name) h.gpus) in
    let free = times-free_indices i (busy_of r name) h.gpus in omega (arith, few, sorted, free)

pub mem-take : (i n : ℕ) (is : List ℕ) → mem_index i (take n is) ≡ true → mem_index i is ≡ true
mem-take i zero is h = cc
mem-take i (suc n) [] h = cc
mem-take i (suc n) (j ∷ js) h = ground (arith, mem-take i n js)

pub length-take : (n : ℕ) (is : List ℕ) → n ≤ length is → length (take n is) ≡ n
length-take zero is h = refl
length-take (suc n) [] h = absurd (omega arith)
length-take (suc n) (j ∷ js) h = ground (arith, length-take n js)

module _ (P : Cand → Type 0) where
  insert_cand-All :
      (want : ℕ) (c : Cand) (cs : List Cand) → P c → All P cs → All P (insert_cand want c cs)
  unfolding insert_cand
  insert_cand-All want c [] p h = (p, tt)
  insert_cand-All want c (d ∷ ds) p h = elim (Bool-cases (before want d c)) [
    | inl e ↦ rw e (h.0, insert_cand-All want c ds p h.1)
    | inr e ↦ rw e (p, h)
  ]

  sort_cands-All : (want : ℕ) (cs : List Cand) → All P cs → All P (sort_cands want cs)
  unfolding sort_cands
  sort_cands-All want [] h = tt
  sort_cands-All want (c ∷ cs) h =
      insert_cand-All want c (sort_cands want cs) h.0 (sort_cands-All want cs h.1)

  insert_cand-All' :
      (want : ℕ) (c : Cand) (cs : List Cand) → All P (insert_cand want c cs) → P c × All P cs
  unfolding insert_cand
  insert_cand-All' want c [] h = h
  insert_cand-All' want c (d ∷ ds) h = elim (Bool-cases (before want d c)) [
    | inl e ↦ let h' = rw e at h in let k = insert_cand-All' want c ds h'.1 in (k.0, (h'.0, k.1))
    | inr e ↦ rw e at h
  ]

  sort_cands-All' : (want : ℕ) (cs : List Cand) → All P (sort_cands want cs) → All P cs
  unfolding sort_cands
  sort_cands-All' want [] h = tt
  sort_cands-All' want (c ∷ cs) h =
      let k = insert_cand-All' want c (sort_cands want cs) h in (k.0, sort_cands-All' want cs k.1)

  first_fit-All :
      (want : ℕ) (cs : List Cand) {c : Cand}
      → All P cs
      → first_fit want cs ≡ some c
      → P c × (want ≤ length c.free)
  unfolding first_fit
  first_fit-All want [] h e = absurd (ground arith)
  first_fit-All want (d ∷ ds) {c} h e = elim (Bool-cases (ltb (length d.free) want)) [
    | inl b ↦ first_fit-All want ds h.1 (rw b at e)
    | inr b ↦ (subst P (some_inj (rw b at e)) h.0, ground arith)
  ]

first_fit-none :
    (want : ℕ) (cs : List Cand)
    → first_fit want cs ≡ none
    → All (λ (c : Cand). length c.free < want) cs
unfolding first_fit
first_fit-none want [] e = tt
first_fit-none want (c ∷ cs) e = elim (Bool-cases (ltb (length c.free) want)) [
  | inl b ↦ (ground arith, first_fit-none want cs (rw b at e))
  | inr b ↦ absurd (ground arith)
]

-- A candidate is a registered host that is live and bears the label, with its free devices.
pub record IsFit (clock : Clock) (r : HostRegistry) (label : Bytes) (c : Cand) : Type 0 where
  pub host : ExecHost
  pub found : get c.name r.hosts ≡ some host
  pub live : is_live clock r host ≡ true
  pub labelled : bears label host ≡ true
  pub free : c.free ≡ free_of r c.name host

module _ (clock : Clock) (r : HostRegistry) (label : Bytes) where
  cands-IsFit :
      (hs : Map ExecHost)
      → All (λ (b : Bytes × ExecHost). get b.0 r.hosts ≡ some b.1) hs
      → All (IsFit clock r label) (cands clock r label hs)
  unfolding cands
  cands-IsFit [] g = tt
  cands-IsFit ((n, h) ∷ hs) g = elim (Bool-cases (is_live clock r h && bears label h)) [
    | inl e ↦ rw e (
      record { host = h; found = g.0; live = ground arith; labelled = ground arith; free = refl },
      cands-IsFit hs g.1,
    )
    | inr e ↦ rw e (cands-IsFit hs g.1)
  ]

  cands_all :
      (P : Cand → Type 0) (hs : Map ExecHost) (n : Bytes) (h : ExecHost)
      → All P (cands clock r label hs)
      → get n hs ≡ some h
      → is_live clock r h ≡ true
      → bears label h ≡ true
      → P (record { name = n; free = free_of r n h })
  unfolding cands get
  cands_all P [] n h a g l b = absurd (ground arith)
  cands_all P ((m, x) ∷ hs) n h a g l b = elim (Bool-cases (eqs m n)) [
    | inl e ↦
        let q : x ≡ h = some_inj (rw e at g) in
        let t : (is_live clock r x && bears label x) ≡ true = ground arith in
        subst (λ (y : ExecHost). P (record { name = n; free = free_of r n y })) q
          (subst (λ (k : Bytes). P (record { name = k; free = free_of r k x })) ((eqs_iff m n).0 e)
            (rw t at a).0)
    | inr e ↦ cands_all P hs n h (later a) (rw e at g) l b
  ]
    where
      later : All P (cands clock r label ((m, x) ∷ hs)) → All P (cands clock r label hs)
      later z = elim (Bool-cases (is_live clock r x && bears label x)) [
        | inl t ↦ (rw t at z).1
        | inr t ↦ rw t at z
      ]

  pub choose-IsFit :
      (want : ℕ) {c : Cand}
      → IsOrdered r.hosts
      → choose clock r label want ≡ some c
      → IsFit clock r label c × (want ≤ length c.free)
  unfolding choose
  choose-IsFit want o e =
      first_fit-All (IsFit clock r label) want _
        (sort_cands-All (IsFit clock r label) want _ (cands-IsFit r.hosts (get-All r.hosts o))) e

  pub choose-none :
      (want : ℕ) (n : Bytes) (h : ExecHost)
      → choose clock r label want ≡ none
      → get n r.hosts ≡ some h
      → is_live clock r h ≡ true
      → bears label h ≡ true
      → length (free_of r n h) < want
  unfolding choose
  choose-none want n h e g l b =
      cands_all (λ (c : Cand). length c.free < want) r.hosts n h
        (sort_cands-All' (λ (c : Cand). length c.free < want) want _ (first_fit-none want _ e)) g l
        b
