-- ===== src/Samples/HostRuns.antt =====
-- The theorems on the host registry, run on one host with two devices.
use sandman.Prelude.{
  codes, Bytes, ℕ, ◌<◌, true, ◌≡◌, refl, false, some, [], ◌∷◌, arith, eqs, eqs_iff,
}
use sandman.Prelude.Map.{get, put}
use sandman.Hosts.{
  GpuInfo, ExecHost, HostRegistry, Clock, mem_index, pick_and_reserve, cands, release, is_live,
  bears,
}
use sandman.Hosts.Picking.{idle}
use sandman.Hosts.Allocation.{
  IsValid, free, run_hosts, IsGranted, pick_and_reserve_lem, pick_and_reserve_none, no_double_grant,
}

abbrev gpu : ℕ → GpuInfo
gpu i = record { index = i; name = []; memory_mib = 0; busy = false }

abbrev clock : Clock
clock = record { parse = λ s. some 5; present = 7 }

abbrev box : ExecHost
box = record { name = codes "h"; addr = []; labels = []; gpus = gpu 0 ∷ gpu 1 ∷ []; seen = [] }

abbrev fleet : HostRegistry
fleet = record { hosts = (codes "h", box) ∷ []; busy = []; ttl = 9 }

fleet-IsValid : IsValid fleet
unfolding get
fleet-IsValid = record {
  ordered = (tt, tt);
  named = λ n h g. ground (arith, eqs_iff (codes "h") n);
}

pick_and_reserve_lem_example :
    IsGranted clock fleet [] 1 box (0 ∷ []) (pick_and_reserve clock fleet [] 1).0
unfolding pick_and_reserve cands get eqs
pick_and_reserve_lem_example = pick_and_reserve_lem clock fleet [] 1 fleet-IsValid box (0 ∷ []) refl

no_double_grant_example : mem_index 0 (1 ∷ []) ≡ false
unfolding pick_and_reserve cands get run_hosts put eqs release
no_double_grant_example =
    no_double_grant clock fleet [] 1 fleet-IsValid box (0 ∷ []) refl 0 refl
      (free (codes "h") (1 ∷ []) ∷ []) (refl, tt) clock [] 1 box (1 ∷ []) refl refl

pick_and_reserve_none_example :
    ((pick_and_reserve clock fleet [] 3).0 ≡ fleet)
    × ((n : Bytes) (h : ExecHost)
        → get n fleet.hosts ≡ some h
        → is_live clock fleet h ≡ true
        → bears [] h ≡ true
        → idle fleet n h.gpus < 3)
unfolding pick_and_reserve cands get eqs
pick_and_reserve_none_example = pick_and_reserve_none clock fleet [] 3 fleet-IsValid refl
