-- ===== src/Samples/PeerRuns.antt =====
-- The theorems on the peers, run on a static and an ephemeral peer.
use sandman.Prelude.{Bytes, codes, ◌≡◌, true, false, some, [], ◌∷◌, split}
use sandman.Prelude.Map.{Map, get}
use sandman.Prelude.Sort.{mem}
use sandman.Peers.{Peer, sync, is_static, static_peer, load_static, in_file, load_static_lem}

abbrev fleet : Map Peer
fleet =
    (codes "a", static_peer (codes "a") (codes "x") [])
    ∷ (codes "b", record (static_peer (codes "b") (codes "y") []) { source = sync; last_seen = 7 })
    ∷ []

abbrev file : Bytes
file = codes "c z"

load_static_lem_example :
    ((k : Bytes) (p : Peer)
      → get k (load_static fleet (some file)) ≡ some p
      → is_static p.source ≡ true
      → mem k (in_file (split 10 file)) ≡ true)
    × ((k : Bytes) (p : Peer)
        → get k fleet ≡ some p
        → is_static p.source ≡ false
        → mem k (in_file (split 10 file)) ≡ false
        → get k (load_static fleet (some file)) ≡ some p)
load_static_lem_example = load_static_lem fleet file
