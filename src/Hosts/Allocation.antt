-- ===== src/Hosts/Allocation.antt =====
-- The devices of the fleet over sequences of operations on the registry (hosts.go).
use sandman.Prelude.{
  Bytes, ℕ, some_inj, ◌<◌, ◌≤◌, ◌≡◌, refl, sym, ap, ◌∙◌, inl, inr, true, false, not, ◌&&◌, ◌||◌,
  Option, none, some, List, [], ◌∷◌, arith, eqs, eqs_iff, take, length, All, Bool-cases,
  Option-cases, eqs_refl,
}
use mathlib.Core.Path.{subst}
use sandman.Prelude.Map.{get, put, get-put, get-remove}
use sandman.Prelude.Order.{IsOrdered, put-IsOrdered, remove-IsOrdered}
use sandman.Hosts.{
  GpuInfo, ExecHost, HostRegistry, Clock, Cand, mem_index, busy_of, add_indices, free_of, register,
  release, drop_host, is_live, bears, choose, pick_and_reserve,
}
use sandman.Hosts.Busy.{
  is_busy, reports, is_busy-register, is_busy-release, is_busy-drop_host, is_busy-reserved,
}
use sandman.Hosts.Picking.{
  choose-IsFit, choose-none, mem-take, length-take, free_of_lem, times, times_reported,
  times-free_of, idle, length-free_of,
}

-- Every host is registered under its own name.
pub record IsValid (r : HostRegistry) : Type 0 where
  pub ordered : IsOrdered r.hosts
  pub named : (n : Bytes) (h : ExecHost) → get n r.hosts ≡ some h → h.name ≡ n

pub data HostOp : Type 0 where
  join : Bytes → Bytes → Bytes → List Bytes → List GpuInfo → HostOp
  pick : Clock → Bytes → ℕ → HostOp
  free : Bytes → List ℕ → HostOp
  leave : Bytes → HostOp

unfoldable pub host_step : HostRegistry → HostOp → HostRegistry
host_step r (join seen name addr labels gpus) = (register r seen name addr labels gpus).0
host_step r (pick clock label want) = (pick_and_reserve clock r label want).0
host_step r (free name gpus) = release r name gpus
host_step r (leave name) = drop_host r name

unfoldable pub run_hosts : HostRegistry → List HostOp → HostRegistry
unfolding host_step
run_hosts r [] = r
run_hosts r (op ∷ ops) = run_hosts (host_step r op) ops

hosts-pick_and_reserve :
    (clock : Clock) (r : HostRegistry) (label : Bytes) (want : ℕ)
    → (pick_and_reserve clock r label want).0.hosts ≡ r.hosts
unfolding pick_and_reserve
hosts-pick_and_reserve clock r label want = ground arith

hosts-release :
    (r : HostRegistry) (name : Bytes) (gpus : List ℕ) → (release r name gpus).hosts ≡ r.hosts
unfolding release
hosts-release r name [] = refl
hosts-release r name (g ∷ gs) = ground arith

hosts-register :
    (r : HostRegistry) (seen name addr : Bytes) (labels : List Bytes) (gpus : List GpuInfo)
    → (register r seen name addr labels gpus).0.hosts
      ≡ put name
          (record { name = name; addr = addr; labels = labels; gpus = gpus; seen = seen })
          r.hosts
unfolding register
hosts-register r seen name addr labels gpus = ground arith

same-IsValid : (r t : HostRegistry) → t.hosts ≡ r.hosts → IsValid r → IsValid t
same-IsValid r t e v = record {
  ordered = subst IsOrdered (sym e) v.ordered;
  named = λ n h g. v.named n h (ap (get n) (sym e) ∙ g);
}

host_step-IsValid : (r : HostRegistry) (op : HostOp) → IsValid r → IsValid (host_step r op)
unfolding host_step drop_host
host_step-IsValid r (join seen name addr labels gpus) v = record {
  ordered =
      subst IsOrdered (sym (hosts-register r seen name addr labels gpus))
        (put-IsOrdered name _ r.hosts v.ordered);
  named = λ n h g. ground (
    arith,
    hosts-register r seen name addr labels gpus,
    get-put name n (record { name = name; addr = addr; labels = labels; gpus = gpus; seen = seen })
        r.hosts,
    eqs_iff name n,
    v.named n h,
  );
}
host_step-IsValid r (pick clock label want) v =
    same-IsValid r (pick_and_reserve clock r label want).0
      (hosts-pick_and_reserve clock r label want) v
host_step-IsValid r (free name gpus) v =
    same-IsValid r (release r name gpus) (hosts-release r name gpus) v
host_step-IsValid r (leave name) v = record {
  ordered = remove-IsOrdered name r.hosts v.ordered;
  named = λ n h g. ground (arith, get-remove name n r.hosts, v.named n h);
}

pub run_hosts-IsValid :
    (r : HostRegistry) (ops : List HostOp) → IsValid r → IsValid (run_hosts r ops)
unfolding run_hosts
run_hosts-IsValid r [] v = v
run_hosts-IsValid r (op ∷ ops) v = run_hosts-IsValid (host_step r op) ops (host_step-IsValid r op v)

-- What holds of a host and of the devices that are handed out on it.
pub record IsGranted (clock : Clock) (r : HostRegistry) (label : Bytes) (want : ℕ) (h : ExecHost)
    (got : List ℕ) (after : HostRegistry) : Type 0 where
  pub found : get h.name r.hosts ≡ some h
  pub live : is_live clock r h ≡ true
  pub labelled : bears label h ≡ true
  pub count : length got ≡ want
  pub no_more : (i : ℕ) → times i got ≤ times_reported i h.gpus
  pub reported : (i : ℕ) → mem_index i got ≡ true → reports i h.gpus ≡ true
  pub was_free : (i : ℕ) → mem_index i got ≡ true → is_busy r h.name i ≡ false
  pub now_busy :
      (n : Bytes) (i : ℕ) → is_busy after n i ≡ (is_busy r n i || (eqs h.name n && mem_index i got))

module _ (clock : Clock) (r : HostRegistry) (label : Bytes) (want : ℕ) where
  abbrev picked : HostRegistry × Option (ExecHost × List ℕ)
  picked = pick_and_reserve clock r label want

  picked_some :
      IsValid r
      → (h : ExecHost) (got : List ℕ) → picked.1 ≡ some (h, got)
      → (c : Cand) × (choose clock r label want ≡ some c)
        × (get c.name r.hosts ≡ some h)
        × (got ≡ take want c.free)
        × (picked.0 ≡ record r {
          busy = put c.name (add_indices (take want c.free) (busy_of r c.name)) r.busy;
        })
  unfolding pick_and_reserve
  picked_some v h got e = go (choose clock r label want) refl
    where
      go :
          (o : Option Cand)
          → choose clock r label want ≡ o
          → (c : Cand) × (choose clock r label want ≡ some c)
            × (get c.name r.hosts ≡ some h)
            × (got ≡ take want c.free)
            × (picked.0 ≡ record r {
              busy = put c.name (add_indices (take want c.free) (busy_of r c.name)) r.busy;
            })
      go none q = absurd (ground arith)
      go (some c) q = elim (Option-cases (get c.name r.hosts)) [
        | inl g ↦ absurd (ground arith)
        | inr (x, g) ↦ (c, q, ground arith, ground arith, ground arith)
      ]

  -- On a valid registry, a host and devices that pickAndReserve returns are granted: the host is
  -- registered, live and bears the label; the indices are as many as asked for, each is of a device
  -- that the host reports and that was not allocated before, and none is handed out more often than
  -- the host reports it; and they alone become allocated.
  pub pick_and_reserve_lem :
      IsValid r
      → (h : ExecHost) (got : List ℕ) → picked.1 ≡ some (h, got)
      → IsGranted clock r label want h got picked.0
  pick_and_reserve_lem v h got e =
      let (c, q, g, t, s) = picked_some v h got e in
      let (fit, long) = choose-IsFit clock r label want v.ordered q in
      let same : fit.host ≡ h = some_inj (sym fit.found ∙ g) in
      let name : h.name ≡ c.name = v.named c.name h g in
      let frees : (i : ℕ)
          → mem_index i got ≡ true
          → (reports i h.gpus && not (is_busy r h.name i)) ≡ true =
        λ i m.
          sym (free_of_lem r h.name h i)
          ∙ ap (mem_index i) (
              ap (λ (k : Bytes). free_of r k h) name
              ∙ ap (free_of r c.name) (sym same)
              ∙ sym fit.free)
          ∙ mem-take i want c.free (ap (mem_index i) (sym t) ∙ m) in
      record {
        found = ap (λ (k : Bytes). get k r.hosts) name ∙ g;
        live = ap (is_live clock r) (sym same) ∙ fit.live;
        labelled = ap (bears label) (sym same) ∙ fit.labelled;
        count = ap length t ∙ length-take want c.free long;
        no_more = λ i.
            subst (λ (l : List ℕ). times i l ≤ times_reported i h.gpus)
              (ap (take want) (
                  ap (λ (k : Bytes). free_of r k h) name
                  ∙ ap (free_of r c.name) (sym same)
                  ∙ sym fit.free)
                ∙ sym t)
              (times-free_of r h.name h i want);
        reported = λ i m. ground (arith, frees i m);
        was_free = λ i m. ground (arith, frees i m);
        now_busy = λ n i.
            ap (λ (x : HostRegistry). is_busy x n i) s
            ∙ is_busy-reserved r n i c.name (take want c.free)
            ∙ ground (arith, name, t);
      }

  -- Where pickAndReserve returns nothing on a valid registry, it has reserved nothing, and no host
  -- could have been picked: of every registered host that is live and bears the label, fewer devices
  -- than asked for are not allocated.
  pub pick_and_reserve_none :
      IsValid r
      → picked.1 ≡ none
      → (picked.0 ≡ r)
        × ((n : Bytes) (h : ExecHost)
            → get n r.hosts ≡ some h
            → is_live clock r h ≡ true
            → bears label h ≡ true
            → idle r n h.gpus < want)
  unfolding pick_and_reserve
  pick_and_reserve_none v e = go (choose clock r label want) refl
    where
      go :
          (o : Option Cand)
          → choose clock r label want ≡ o
          → (picked.0 ≡ r)
            × ((n : Bytes) (h : ExecHost)
                → get n r.hosts ≡ some h
                → is_live clock r h ≡ true
                → bears label h ≡ true
                → idle r n h.gpus < want)
      go none q = (
        ground arith,
        λ n h g l b.
            let few = choose-none clock r label want n h q g l b in
            omega (arith, few, length-free_of r n h),
      )
      go (some c) q =
          let fit = (choose-IsFit clock r label want v.ordered q).0 in
          absurd (ground (arith, fit.found))

-- The operation does not take the device from the job that holds it.
abbrev pub IsKeeping : Bytes → ℕ → HostOp → Type 0
IsKeeping n i (join seen name addr labels gpus) = eqs name n ≡ true → reports i gpus ≡ true
IsKeeping n i (pick clock label want) = Unit
IsKeeping n i (free name gpus) = (eqs name n && mem_index i gpus) ≡ false
IsKeeping n i (leave name) = eqs name n ≡ false

host_step_busy :
    (r : HostRegistry) (n : Bytes) (i : ℕ) (op : HostOp)
    → IsValid r
    → IsKeeping n i op
    → is_busy r n i ≡ true
    → is_busy (host_step r op) n i ≡ true
unfolding host_step
host_step_busy r n i (join seen name addr labels gpus) v k b =
    is_busy-register r n i seen name addr labels gpus
    ∙ ground (arith, Bool-cases (eqs name n), k, b)
host_step_busy r n i (pick clock label want) v k b =
    elim (Option-cases (pick_and_reserve clock r label want).1) [
      | inl e ↦
          ap (λ (x : HostRegistry). is_busy x n i) (pick_and_reserve_none clock r label want v e).0
          ∙ b
      | inr ((h, got), e) ↦
          (pick_and_reserve_lem clock r label want v h got e).now_busy n i ∙ ground (arith, b)
    ]
host_step_busy r n i (free name gpus) v k b = is_busy-release r n i name gpus ∙ ground (arith, b, k)
host_step_busy r n i (leave name) v k b = is_busy-drop_host r n i name ∙ ground (arith, b, k)

run_hosts_busy :
    (r : HostRegistry) (n : Bytes) (i : ℕ) (ops : List HostOp)
    → IsValid r
    → All (IsKeeping n i) ops
    → is_busy r n i ≡ true
    → is_busy (run_hosts r ops) n i ≡ true
unfolding run_hosts
run_hosts_busy r n i [] v k b = b
run_hosts_busy r n i (op ∷ ops) v k b =
    run_hosts_busy (host_step r op) n i ops (host_step-IsValid r op v) k.1
      (host_step_busy r n i op v k.0 b)

-- On a valid registry, let pickAndReserve hand out a device. Over any operations that neither
-- release it, nor drop its host, nor register the host without it, no later pickAndReserve hands
-- it out again.
pub no_double_grant :
    (clock : Clock) (r : HostRegistry) (label : Bytes) (want : ℕ)
    → IsValid r
    → (h : ExecHost) (got : List ℕ) → (pick_and_reserve clock r label want).1 ≡ some (h, got)
    → (i : ℕ) → mem_index i got ≡ true
    → (ops : List HostOp) → All (IsKeeping h.name i) ops
    → (clock' : Clock) (label' : Bytes) (want' : ℕ) (h' : ExecHost) (got' : List ℕ)
    → (pick_and_reserve clock'
        (run_hosts (pick_and_reserve clock r label want).0 ops)
        label'
        want').1
      ≡ some (h', got')
    → h'.name ≡ h.name
    → mem_index i got' ≡ false
no_double_grant clock r label want v h got e i m ops k clock' label' want' h' got' e' same =
    let r₁ = (pick_and_reserve clock r label want).0 in
    let v₁ = host_step-IsValid r (pick clock label want) v in
    let first = pick_and_reserve_lem clock r label want v h got e in
    let held =
      run_hosts_busy r₁ h.name i ops (unfold host_step in v₁) k
        (first.now_busy h.name i ∙ ground (arith, m, eqs_refl h.name)) in
    let second =
      pick_and_reserve_lem clock' (run_hosts r₁ ops) label' want'
        (run_hosts-IsValid r₁ ops (unfold host_step in v₁)) h' got' e' in
    ground (arith, held, second.was_free i, same)
