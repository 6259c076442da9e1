-- ===== src/Hosts.antt =====
-- The registry of execution hosts and the allocation of their GPUs (hosts.go).
pub mod Busy
pub mod Picking
pub mod Allocation
use sandman.Prelude.{
  Bytes, ℕ, ◌+◌, ◌-◌, Bool, true, false, not, ◌&&◌, ◌||◌, Option, none, some, List, [], ◌∷◌,
  if◌then◌else◌, eqs, lts, ltb, leb, ◌==◌, length, take,
}
use sandman.Prelude.Map.{Map, get, put, remove}
use sandman.Prelude.Sort.{mem, sort_by}

-- An index is a natural number, as docker and CUDA count devices.
pub record GpuInfo : Type 0 where
  pub index : ℕ
  pub name : Bytes
  pub memory_mib : ℕ
  pub busy : Bool

pub record ExecHost : Type 0 where
  pub name : Bytes
  pub addr : Bytes
  pub labels : List Bytes
  pub gpus : List GpuInfo
  pub seen : Bytes

-- hostRegistry: `busy` holds for each host the indices that map to `true`.
pub record HostRegistry : Type 0 where
  pub hosts : Map ExecHost
  pub busy : Map (List ℕ)
  pub ttl : ℕ

-- Time is a parameter: what time.Parse reads, and the present time on the same scale.
pub record Clock : Type 0 where
  pub parse : Bytes → Option ℕ
  pub present : ℕ

abbrev pub mem_index : ℕ → List ℕ → Bool
mem_index i [] = false
mem_index i (j ∷ js) = (i == j) || mem_index i js

abbrev pub busy_of : HostRegistry → Bytes → List ℕ
busy_of r n = elim (get n r.busy) [ none ↦ [] | some b ↦ b ]

-- The devices among `gpus` that `b` holds.
unfoldable pub keep_busy : List ℕ → List GpuInfo → List ℕ
keep_busy b [] = []
keep_busy b (g ∷ gs) =
    let rest = keep_busy b gs in if mem_index g.index b then g.index ∷ rest else rest

-- An empty set is deleted.
abbrev pub put_busy : Bytes → List ℕ → Map (List ℕ) → Map (List ℕ)
put_busy n [] m = remove n m
put_busy n (i ∷ is) m = put n (i ∷ is) m

unfoldable pub register :
    HostRegistry → Bytes → Bytes → Bytes → List Bytes → List GpuInfo → HostRegistry × ExecHost
unfolding keep_busy
register r seen name addr labels gpus =
    let h : ExecHost = record {
      name = name;
      addr = addr;
      labels = labels;
      gpus = gpus;
      seen = seen;
    } in
    let joined = record r { hosts = put name h r.hosts } in
    elim (get name r.busy) [
      | none ↦ (joined, h)
      | some b ↦ (record joined { busy = put_busy name (keep_busy b gpus) r.busy }, h)
    ]

-- A registration from the future counts as fresh: the age is negative in Go, and 0 here.
unfoldable pub is_live : Clock → HostRegistry → ExecHost → Bool
is_live clock r h =
    if leb r.ttl 0
    then true
    else elim (clock.parse h.seen) [ none ↦ false | some t ↦ ltb (clock.present - t) r.ttl ]

unfoldable pub free_indices : List ℕ → List GpuInfo → List ℕ
free_indices b [] = []
free_indices b (g ∷ gs) =
    let rest = free_indices b gs in if mem_index g.index b then rest else g.index ∷ rest

-- sort.Ints
unfoldable pub insert_int : ℕ → List ℕ → List ℕ
insert_int i [] = i ∷ []
insert_int i (j ∷ js) = let rest = insert_int i js in if leb i j then i ∷ j ∷ js else j ∷ rest

unfoldable pub sort_ints : List ℕ → List ℕ
unfolding insert_int
sort_ints [] = []
sort_ints (i ∷ is) = insert_int i (sort_ints is)

pub record Cand : Type 0 where
  pub name : Bytes
  pub free : List ℕ

abbrev pub bears : Bytes → ExecHost → Bool
bears label h = eqs label [] || mem label h.labels

abbrev pub free_of : HostRegistry → Bytes → ExecHost → List ℕ
free_of r n h = sort_ints (free_indices (busy_of r n) h.gpus)

unfoldable pub cands : Clock → HostRegistry → Bytes → Map ExecHost → List Cand
unfolding is_live free_indices sort_ints
cands clock r label [] = []
cands clock r label ((n, h) ∷ hs) =
    let rest = cands clock r label hs in
    if is_live clock r h && bears label h
    then record { name = n; free = free_of r n h } ∷ rest
    else rest

-- The order of sort.Slice. Names are distinct, so that the order is total.
abbrev pub before : ℕ → Cand → Cand → Bool
before want c d =
    if ltb 0 want && not (length c.free == length d.free)
    then ltb (length d.free) (length c.free)
    else lts c.name d.name

unfoldable pub insert_cand : ℕ → Cand → List Cand → List Cand
insert_cand want c [] = c ∷ []
insert_cand want c (d ∷ ds) =
    let rest = insert_cand want c ds in if before want d c then d ∷ rest else c ∷ d ∷ ds

unfoldable pub sort_cands : ℕ → List Cand → List Cand
unfolding insert_cand
sort_cands want [] = []
sort_cands want (c ∷ cs) = insert_cand want c (sort_cands want cs)

unfoldable pub first_fit : ℕ → List Cand → Option Cand
first_fit want [] = none
first_fit want (c ∷ cs) =
    let rest = first_fit want cs in if ltb (length c.free) want then rest else some c

unfoldable pub add_indices : List ℕ → List ℕ → List ℕ
add_indices [] b = b
add_indices (i ∷ is) b = add_indices is (if mem_index i b then b else i ∷ b)

unfoldable pub choose : Clock → HostRegistry → Bytes → ℕ → Option Cand
unfolding cands sort_cands first_fit
choose clock r label want = first_fit want (sort_cands want (cands clock r label r.hosts))

unfoldable pub pick_and_reserve :
    Clock → HostRegistry → Bytes → ℕ → HostRegistry × Option (ExecHost × List ℕ)
unfolding choose add_indices
pick_and_reserve clock r label want = elim (choose clock r label want) [
  | none ↦ (r, none)
  | some c ↦
      let got = take want c.free in
      let reserved = record r { busy = put c.name (add_indices got (busy_of r c.name)) r.busy } in
      elim (get c.name r.hosts) [ none ↦ (reserved, none) | some h ↦ (reserved, some (h, got)) ]
]

unfoldable pub without : List ℕ → List ℕ → List ℕ
without is [] = []
without is (j ∷ js) = let rest = without is js in if mem_index j is then rest else j ∷ rest

unfoldable pub release : HostRegistry → Bytes → List ℕ → HostRegistry
unfolding without
release r name [] = r
release r name (i ∷ is) = elim (get name r.busy) [
  | none ↦ r
  | some b ↦ record r { busy = put_busy name (without (i ∷ is) b) r.busy }
]

unfoldable pub drop_host : HostRegistry → Bytes → HostRegistry
drop_host r name = record r { hosts = remove name r.hosts; busy = remove name r.busy }

abbrev pub mark_gpus : List ℕ → List GpuInfo → List GpuInfo
mark_gpus b [] = []
mark_gpus b (g ∷ gs) = record g { busy = mem_index g.index b } ∷ mark_gpus b gs

abbrev pub mark_hosts : HostRegistry → Map ExecHost → List ExecHost
mark_hosts r [] = []
mark_hosts r ((n, h) ∷ hs) =
    record h { gpus = mark_gpus (busy_of r h.name) h.gpus } ∷ mark_hosts r hs

unfoldable pub list_hosts : HostRegistry → List ExecHost
unfolding sort_by
list_hosts r = sort_by (λ h. h.name) (mark_hosts r r.hosts)
