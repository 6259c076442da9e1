-- ===== src/Protocol.antt =====
-- The fabric text protocol (protocol.go). A reader is the list of bytes that it still delivers
-- before the end of the stream; a write succeeds, and is the list of bytes that it sends.
pub mod Frames
use sandman.Prelude.{
  Bytes, codes, ℕ, ◌-◌, Bool, true, false, not, ◌&&◌, ◌||◌, Option, none, some, List, [], ◌∷◌, ◌++◌,
  if◌then◌else◌, eqs, ltb, ◌==◌, length, take, drop, split,
}
use sandman.Prelude.Decimal.{digits, Signed, plus, minus, atoi}
use sandman.Prelude.Result.{Result, ok, err}

-- `crash` stands for a Go panic.
pub data ReadError : Type 0 where
  eof empty_event short_frame no_number crash : ReadError

-- strings.Join(parts, " ")
unfoldable pub join : List Bytes → Bytes
join [] = []
join (p ∷ []) = p
join (p ∷ q ∷ ps) = p ++ 32 ∷ join (q ∷ ps)

unfoldable pub write_line : List Bytes → Bytes
unfolding join
write_line parts = join parts ++ 10 ∷ []

unfoldable pub write_frame : Bytes → Bytes → Bytes
unfolding write_line digits
write_frame tag p = write_line (tag ∷ digits (length p) ∷ []) ++ p

unfoldable pub write_out_frame : Bytes → Bytes → Bytes
unfolding write_line digits
write_out_frame fd p = write_line (codes "OUT" ∷ fd ∷ digits (length p) ∷ []) ++ p

-- r.ReadString('\n'): the line with its end, and what follows it.
unfoldable pub read_string : Bytes → Option (Bytes × Bytes)
read_string [] = none
read_string (c ∷ s) =
    let rest = read_string s in
    if c == 10
    then some (c ∷ [], s)
    else elim rest [ none ↦ none | some (line, later) ↦ some (c ∷ line, later) ]

-- strings.TrimRight(line, "\r\n")
unfoldable pub trim_right : Bytes → Bytes
trim_right [] = []
trim_right (c ∷ s) =
    let rest = trim_right s in if eqs rest [] && ((c == 13) || (c == 10)) then [] else c ∷ rest

unfoldable pub read_line : Bytes → Result ReadError (List Bytes × Bytes)
unfolding read_string trim_right split
read_line r = elim (read_string r) [
  | none ↦ err eof
  | some (line, rest) ↦
      if eqs (trim_right line) [] then ok ([], rest) else ok (split 32 (trim_right line), rest)
]

pub record Event : Type 0 where
  pub tag : Bytes
  pub fd : Bytes
  pub payload : Bytes

-- io.ReadFull
abbrev pub read_full : Bytes → ℕ → Bytes → Result ReadError (Event × Bytes)
read_full fd n r =
    if ltb (length r) n
    then err eof
    else ok (record { tag = codes "OUT"; fd = fd; payload = take n r }, drop n r)

-- A buffer of a negative length is a panic.
abbrev pub read_payload : Bytes → Option Signed → Bytes → Result ReadError (Event × Bytes)
read_payload fd none r = err no_number
read_payload fd (some (plus n)) r = read_full fd n r
read_payload fd (some (minus n)) r = if n == 0 then read_full fd 0 r else err crash

abbrev pub read_out : List Bytes → Bytes → Result ReadError (Event × Bytes)
read_out (fd ∷ n ∷ more) r = read_payload fd (atoi n) r
read_out _ r = err short_frame

abbrev pub event_of : List Bytes → Bytes → Result ReadError (Event × Bytes)
event_of [] r = err empty_event
event_of (t ∷ ts) r =
    if eqs t (codes "OUT")
    then read_out ts r
    else ok (record { tag = t; fd = []; payload = join ts }, r)

unfoldable pub read_event : Bytes → Result ReadError (Event × Bytes)
unfolding read_line atoi join
read_event r = elim (read_line r) [ err e ↦ err e | ok (tok, rest) ↦ event_of tok rest ]

-- How a connection goes on after the handshake. `panicked` is the Go panic of `tok[0]`.
pub data Served : Type 0 where
  hung_up serves_nodes serves_stats panicked : Served
  serves_run : Bytes → Served

abbrev pub dispatch : Bool → Bytes → Bytes → Served
dispatch can_run t r =
    if eqs t (codes "NODES")
    then serves_nodes
    else if eqs t (codes "STATS")
    then serves_stats
    else if eqs t (codes "RUN") && can_run
    then serves_run r
    else hung_up

abbrev pub serve_command : Bool → Result ReadError (List Bytes × Bytes) → Served
serve_command can_run (err e) = hung_up
serve_command can_run (ok ([], r)) = panicked
serve_command can_run (ok (t ∷ ts, r)) = dispatch can_run t r

abbrev pub serve_hello : Bool → Result ReadError (List Bytes × Bytes) → Served
serve_hello can_run (err e) = hung_up
serve_hello can_run (ok ([], r)) = hung_up
serve_hello can_run (ok (t ∷ ts, r)) =
    if eqs t (codes "HELLO") then serve_command can_run (read_line r) else hung_up

-- serve: `can_run` tells whether the backend has a handler for RUN.
unfoldable pub serve : Bool → Bytes → Served
unfolding read_line
serve can_run r = serve_hello can_run (read_line r)
