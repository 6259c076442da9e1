-- ===== src/Jobs/Gate.antt =====
-- jobGate: a pipeline's queue of jobs, with the pointers of its list. A node is named by a number,
-- in the order of their creation, and `closed` names the nodes whose channel is closed, the latest
-- first. Each function is a section under the gate's lock.
pub mod Queue
pub mod Unlink
pub mod Represents
pub mod Arrival
pub mod Refinement
pub mod Slot
use sandman.Prelude.Map.{Map, get, put}
use sandman.Prelude.{
  Bytes, ℕ, zero, suc, Bool, true, false, Option, none, some, List, [], ◌∷◌, if◌then◌else◌, ◌==◌,
  arith,
}

pub record JobGate : Type 0 where
  pub next : ℕ → Option ℕ
  pub fresh : ℕ
  pub head : Option ℕ
  pub tail : Option ℕ
  pub held : Bool
  pub closed : List ℕ

abbrev pub new_gate : JobGate
new_gate = record {
  next = λ n. none;
  fresh = 0;
  head = none;
  tail = none;
  held = false;
  closed = [];
}

-- d.jobGate: the gate of a pipeline, made when it has none.
unfoldable pub job_gate : Map JobGate → Bytes → JobGate × Map JobGate
unfolding get put
job_gate gates pipeline = elim (get pipeline gates) [
  | some g ↦ (g, gates)
  | none ↦ (new_gate, put pipeline new_gate gates)
]

-- An assignment to one place of a function.
abbrev pub set_at {ℓ} : {A : Type ℓ} → ℕ → A → (ℕ → A) → ℕ → A
set_at n a f m = if m == n then a else f m

abbrev pub is_none {ℓ} : {A : Type ℓ} → Option A → Bool
is_none none = true
is_none (some a) = false

-- A node for the job, behind the tail.
abbrev pub link_behind : Option ℕ → JobGate → JobGate
link_behind none g = record g {
  next = set_at g.fresh none g.next;
  fresh = suc g.fresh;
  head = some g.fresh;
  tail = some g.fresh;
}
link_behind (some t) g = record g {
  next = set_at t (some g.fresh) (set_at g.fresh none g.next);
  fresh = suc g.fresh;
  tail = some g.fresh;
}

abbrev pub take_slot : ℕ → JobGate → JobGate
take_slot n g = record g {
  held = true;
  head = g.next n;
  tail = (if is_none (g.next n) then none else g.tail);
}

-- The locked section of enter: the gate, and `start`.
unfoldable pub enter : JobGate → JobGate × Bool
enter g =
    let linked = link_behind g.tail g in
    if g.held then (linked, false) else (take_slot g.fresh linked, true)

abbrev pub same_node : Option ℕ → ℕ → Bool
same_node none n = false
same_node (some m) n = m == n

abbrev pub bypass : Option ℕ → ℕ → JobGate → JobGate
bypass none cur g = record g { head = g.next cur }
bypass (some p) cur g = record g { next = set_at p (g.next cur) g.next }

-- The body of the loop at the node itself.
abbrev pub unlink : Option ℕ → ℕ → JobGate → JobGate
unlink prev cur g = record (bypass prev cur g) {
  tail = (if same_node g.tail cur then prev else g.tail);
}

-- The loop of remove, on fuel.
unfoldable pub remove_from : ℕ → Option ℕ → Option ℕ → ℕ → JobGate → JobGate × Bool
remove_from zero prev cur n g = (g, false)
remove_from (suc k) prev none n g = (g, false)
remove_from (suc k) prev (some cur) n g =
    let rest = remove_from k (some cur) (g.next cur) n g in
    if cur == n then (unlink prev cur g, true) else rest

-- A node is visited once, and there are `fresh` of them.
unfoldable pub remove : JobGate → ℕ → JobGate × Bool
unfolding remove_from
remove g n = remove_from (suc g.fresh) none g.head n g

abbrev pub release_to : Option ℕ → JobGate → JobGate
release_to none g = record g { held = false }
release_to (some n) g = record g {
  head = g.next n;
  tail = (if is_none (g.next n) then none else g.tail);
  closed = n ∷ g.closed;
}

unfoldable pub release : JobGate → JobGate
release g = release_to g.head g
