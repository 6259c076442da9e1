-- ===== src/Peers.antt =====
-- The registry of the fleet's peers (registry.go): hand-edited static peers, and the ephemeral ones
-- of multicast DNS and of gossip. Times are natural numbers, in seconds.
use sandman.Prelude.{
  Bytes, codes, ℕ, ◌-◌, ◌≡◌, refl, inl, inr, Bool, true, false, not, ◌&&◌, ◌||◌, Option, none, some,
  List, [], ◌∷◌, ◌++◌, if◌then◌else◌, eqs, eqs_iff, ltb, ◌==◌, has_prefix, split, arith,
  Option-cases,
}
use sandman.Prelude.Map.{Map, get, put, get-put}
use sandman.Prelude.Sort.{mem, sort_by}

pub data Source : Type 0 where
  mdns sync static : Source

pub record Peer : Type 0 where
  pub name : Bytes
  pub addr : Bytes
  pub docker : Bytes
  pub role : Bytes
  pub source : Source
  pub version : Bytes
  pub last_seen : ℕ

abbrev pub is_static : Source → Bool
is_static static = true
is_static _ = false

-- The white space of ASCII. A byte of a longer character counts as none.
abbrev pub is_space : ℕ → Bool
is_space c = (c == 32) || (ltb 8 c && ltb c 14)

unfoldable pub trim_left : Bytes → Bytes
trim_left [] = []
trim_left (c ∷ s) = let rest = trim_left s in if is_space c then rest else c ∷ s

abbrev pub add_field : Bytes → List Bytes → List Bytes
add_field [] fs = fs
add_field (c ∷ s) fs = (c ∷ s) ∷ fs

-- strings.Fields, with the field that is being read.
unfoldable pub fields_from : Bytes → Bytes → List Bytes
fields_from acc [] = add_field acc []
fields_from acc (c ∷ s) =
    let here = add_field acc (fields_from [] s) in
    let on = fields_from (acc ++ c ∷ []) s in if is_space c then here else on

abbrev pub static_peer : Bytes → Bytes → List Bytes → Peer
static_peer name addr more = record {
  name = name;
  addr = addr;
  docker = elim more [ [] ↦ [] | d ∷ ds ↦ d ];
  role = [];
  source = static;
  version = [];
  last_seen = 0;
}

abbrev pub peer_of_fields : List Bytes → Option Peer
peer_of_fields (name ∷ addr ∷ more) = some (static_peer name addr more)
peer_of_fields _ = none

-- One line of the peers file. The space behind a line does not matter to its fields.
unfoldable pub peer_of_line : Bytes → Option Peer
unfolding trim_left fields_from
peer_of_line line =
    if eqs (trim_left line) [] || has_prefix (codes "#") (trim_left line)
    then none
    else peer_of_fields (fields_from [] (trim_left line))

-- The names in the file.
unfoldable pub in_file : List Bytes → List Bytes
unfolding peer_of_line
in_file [] = []
in_file (l ∷ ls) =
    let rest = in_file ls in elim (peer_of_line l) [ none ↦ rest | some p ↦ p.name ∷ rest ]

-- The loop over the lines.
unfoldable pub add_lines : Map Peer → List Bytes → Map Peer
unfolding peer_of_line
add_lines m [] = m
add_lines m (l ∷ ls) = elim (peer_of_line l) [
  | none ↦ add_lines m ls
  | some p ↦ add_lines (put p.name p m) ls
]

-- The second loop: static peers that are not in the file any more.
unfoldable pub drop_ghosts : List Bytes → Map Peer → Map Peer
drop_ghosts names [] = []
drop_ghosts names ((k, p) ∷ m) =
    let rest = drop_ghosts names m in
    if is_static p.source && not (mem k names) then rest else (k, p) ∷ rest

-- loadStatic, where the file has the given content or is not there.
unfoldable pub load_static : Map Peer → Option Bytes → Map Peer
unfolding add_lines in_file drop_ghosts split
load_static m none = m
load_static m (some text) = drop_ghosts (in_file (split 10 text)) (add_lines m (split 10 text))

abbrev pub mdns_stale : ℕ
mdns_stale = 90

-- A peer seen in the future has a negative age in Go, and is 0 seconds old here: not stale.
unfoldable pub prune : ℕ → Map Peer → Map Peer
prune now [] = []
prune now ((k, p) ∷ m) =
    let rest = prune now m in
    if not (is_static p.source) && ltb mdns_stale (now - p.last_seen) then rest else (k, p) ∷ rest

unfoldable pub peers_of : Map Peer → List Peer
peers_of [] = []
peers_of ((k, p) ∷ m) = p ∷ peers_of m

unfoldable pub list_peers : Map Peer → List Peer
unfolding peers_of sort_by
list_peers m = sort_by (λ p. p.name) (peers_of m)

-- mergeSync, in the registry of the node `own`.
unfoldable pub merge_sync : Map Peer → Bytes → ℕ → Bytes → Bytes → Bytes → Bytes → Bytes → Map Peer
merge_sync m own now name addr docker role version =
    if eqs name own
    then m
    else put name
        (record {
          name = name;
          addr = addr;
          docker = docker;
          role = if eqs role [] then codes "daemon" else role;
          source = sync;
          version = version;
          last_seen = now;
        })
        m

module _ (names : List Bytes) where
  ghost_free :
      (m : Map Peer) (k : Bytes) {p : Peer}
      → get k (drop_ghosts names m) ≡ some p
      → is_static p.source ≡ true
      → mem k names ≡ true
  unfolding drop_ghosts get
  ghost_free [] k h e = absurd (ground arith)
  ghost_free ((j, q) ∷ m) k {p} h e = ground (arith, eqs_iff j k, ghost_free m k {p = p})

  kept_peer :
      (m : Map Peer) (k : Bytes) {p : Peer}
      → get k m ≡ some p
      → (is_static p.source && not (mem k names)) ≡ false
      → get k (drop_ghosts names m) ≡ some p
  unfolding drop_ghosts get
  kept_peer [] k h e = absurd (ground arith)
  kept_peer ((j, q) ∷ m) k {p} h e = ground (arith, eqs_iff j k, kept_peer m k {p = p})

unlisted :
    (m : Map Peer) (ls : List Bytes) (k : Bytes)
    → mem k (in_file ls) ≡ false
    → get k (add_lines m ls) ≡ get k m
unfolding add_lines in_file mem
unlisted m [] k h = refl
unlisted m (l ∷ ls) k h = elim (Option-cases (peer_of_line l)) [
  | inl e ↦ ground (arith, e, unlisted m ls k)
  | inr (p, e) ↦ ground (
    arith,
    e,
    unlisted (put p.name p m) ls k,
    eqs_iff p.name k,
    eqs_iff k p.name,
    get-put p.name k p m,
  )
]

-- After the peers file is read again, each static peer of the registry is named in the file, and
-- each ephemeral peer that the file does not name is still there, unchanged.
pub load_static_lem :
    (m : Map Peer) (text : Bytes)
    → ((k : Bytes) (p : Peer)
        → get k (load_static m (some text)) ≡ some p
        → is_static p.source ≡ true
        → mem k (in_file (split 10 text)) ≡ true)
      × ((k : Bytes) (p : Peer)
          → get k m ≡ some p
          → is_static p.source ≡ false
          → mem k (in_file (split 10 text)) ≡ false
          → get k (load_static m (some text)) ≡ some p)
unfolding load_static
load_static_lem m text = (
  λ k p h e. ghost_free (in_file (split 10 text)) (add_lines m (split 10 text)) k h e,
  λ k p h e n.
      kept_peer (in_file (split 10 text)) (add_lines m (split 10 text)) k
        (ground (arith, unlisted m (split 10 text) k n, h)) (ground (arith, e)),
)

-- Neither static nor seen in time.
abbrev pub is_stale : ℕ → Peer → Bool
is_stale now p = not (is_static p.source) && ltb mdns_stale (now - p.last_seen)

fresh_peer :
    (now : ℕ) (m : Map Peer) (k : Bytes) {p : Peer}
    → get k (prune now m) ≡ some p
    → is_stale now p ≡ false
unfolding prune get
fresh_peer now [] k h = absurd (ground arith)
fresh_peer now ((j, q) ∷ m) k {p} h = ground (arith, eqs_iff j k, fresh_peer now m k {p = p})

pruned_peer :
    (now : ℕ) (m : Map Peer) (k : Bytes) {p : Peer}
    → get k m ≡ some p
    → is_stale now p ≡ false
    → get k (prune now m) ≡ some p
unfolding prune get
pruned_peer now [] k h e = absurd (ground arith)
pruned_peer now ((j, q) ∷ m) k {p} h e = ground (arith, eqs_iff j k, pruned_peer now m k {p = p})

-- Pruning keeps every static peer and every peer that was seen in the last 90 seconds, unchanged,
-- and leaves no other peer.
pub prune_lem :
    (now : ℕ) (m : Map Peer)
    → ((k : Bytes) (p : Peer) → get k (prune now m) ≡ some p → is_stale now p ≡ false)
      × ((k : Bytes) (p : Peer)
          → get k m ≡ some p
          → is_stale now p ≡ false
          → get k (prune now m) ≡ some p)
prune_lem now m = (λ k p h. fresh_peer now m k h, λ k p h e. pruned_peer now m k h e)
