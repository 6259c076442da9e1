-- ===== src/Protocol/Frames.antt =====
-- The readers of the text protocol against its writers.
use mathlib.Core.List.{append_assoc, append-nil}
use sandman.Prelude.{
  Bytes, codes, ℕ, zero, suc, ◌+◌, ◌/◌, ◌%◌, ◌<◌, ◌≡◌, refl, sym, ap, ◌∙◌, Bool, true, false, not,
  ◌&&◌, ◌||◌, some, List, [], ◌∷◌, ◌++◌, eqs, ltb, ◌==◌, length, length-append, take-append,
  drop-append, split, split_from, arith, inl, inr, Bool-cases,
}
use sandman.Prelude.Decimal.{digits, digits_from, atoi-digits}
use sandman.Prelude.Result.{ok}
use sandman.Protocol.{
  join, write_line, write_out_frame, read_string, trim_right, read_line, read_event, serve,
  panicked, dispatch, read_full,
}

-- No byte ends a line.
abbrev pub is_line : Bytes → Bool
is_line [] = true
is_line (c ∷ s) = not ((c == 10) || (c == 13)) && is_line s

-- Nor is one a space.
abbrev pub is_token : Bytes → Bool
is_token [] = true
is_token (c ∷ s) = (not (c == 32) && not ((c == 10) || (c == 13))) && is_token s

abbrev pub are_tokens : List Bytes → Bool
are_tokens [] = true
are_tokens (t ∷ ts) = is_token t && are_tokens ts

is_line-append : (s u : Bytes) → is_line (s ++ u) ≡ (is_line s && is_line u)
is_line-append [] u = refl
is_line-append (c ∷ s) u = ground (arith, is_line-append s u)

is_line-token : (s : Bytes) → is_token s ≡ true → is_line s ≡ true
is_line-token [] h = refl
is_line-token (c ∷ s) h = ground (arith, is_line-token s)

is_line-join : (ps : List Bytes) → are_tokens ps ≡ true → is_line (join ps) ≡ true
unfolding join
is_line-join [] h = refl
is_line-join (p ∷ []) h = is_line-token p (ground arith)
is_line-join (p ∷ q ∷ ps) h =
    ground (arith, is_line-append p (32 ∷ join (q ∷ ps)), is_line-token p, is_line-join (q ∷ ps))

read_string-line :
    (s rest : Bytes) → is_line s ≡ true → read_string (s ++ 10 ∷ rest) ≡ some (s ++ 10 ∷ [], rest)
unfolding read_string
read_string-line [] rest h = refl
read_string-line (c ∷ s) rest h = ground (arith, read_string-line s rest)

trim_right-line : (s : Bytes) → is_line s ≡ true → trim_right (s ++ 10 ∷ []) ≡ s
unfolding trim_right eqs
trim_right-line [] h = refl
trim_right-line (c ∷ s) h = ground (arith, trim_right-line s)

split_from-token : (acc s : Bytes) → is_token s ≡ true → split_from 32 acc s ≡ (acc ++ s) ∷ []
unfolding split_from
split_from-token acc [] h = ap (λ (a : Bytes). a ∷ []) (sym (append-nil acc))
split_from-token acc (c ∷ s) h =
    ground (arith, split_from-token (acc ++ c ∷ []) s, append_assoc acc (c ∷ []) s)

split_from-append :
    (acc s u : Bytes)
    → is_token s ≡ true
    → split_from 32 acc (s ++ 32 ∷ u) ≡ (acc ++ s) ∷ split_from 32 [] u
unfolding split_from
split_from-append acc [] u h = ap (λ (a : Bytes). a ∷ split_from 32 [] u) (sym (append-nil acc))
split_from-append acc (c ∷ s) u h =
    ground (arith, split_from-append (acc ++ c ∷ []) s u, append_assoc acc (c ∷ []) s)

split-join :
    (p : Bytes) (ps : List Bytes) → are_tokens (p ∷ ps) ≡ true → split 32 (join (p ∷ ps)) ≡ p ∷ ps
unfolding split join
split-join p [] h = split_from-token [] p (ground arith)
split-join p (q ∷ ps) h =
    split_from-append [] p (join (q ∷ ps)) (ground arith)
    ∙ ap (λ (l : List Bytes). p ∷ l) (split-join q ps (ground arith))

nonempty-join : (p : Bytes) (ps : List Bytes) → eqs p [] ≡ false → eqs (join (p ∷ ps)) [] ≡ false
unfolding join eqs
nonempty-join [] ps h = cc
nonempty-join (c ∷ p) [] h = refl
nonempty-join (c ∷ p) (q ∷ ps) h = refl

-- readLine reads back the tokens of writeLine, where no token holds a space or an end of line and
-- the first one is not empty, and leaves what follows.
pub read_line-write_line :
    (p : Bytes) (ps : List Bytes) (rest : Bytes)
    → are_tokens (p ∷ ps) ≡ true
    → eqs p [] ≡ false
    → read_line (write_line (p ∷ ps) ++ rest) ≡ ok (p ∷ ps, rest)
unfolding read_line write_line
read_line-write_line p ps rest h e =
    let s = join (p ∷ ps) in
    let l = is_line-join (p ∷ ps) h in
    ground (
      arith,
      append_assoc s (10 ∷ []) rest,
      read_string-line s rest l,
      trim_right-line s l,
      nonempty-join p ps e,
      split-join p ps h,
    )

is_token-append : (s u : Bytes) → is_token (s ++ u) ≡ (is_token s && is_token u)
is_token-append [] u = refl
is_token-append (c ∷ s) u = ground (arith, is_token-append s u)

is_token-digits_from : (k i : ℕ) → is_token (digits_from k i) ≡ true
unfolding digits_from
is_token-digits_from zero i = refl
is_token-digits_from (suc k) i = elim (Bool-cases (ltb i 10)) [
  | inl b ↦ rw b (ground arith)
  | inr b ↦ rw b (
      is_token-append (digits_from k (i / 10)) ((48 + i % 10) ∷ [])
      ∙ ground (arith, is_token-digits_from k (i / 10), last_digit i))
]
  where
    last_digit : (n : ℕ) → is_token ((48 + n % 10) ∷ []) ≡ true
    last_digit n = let l : n % 10 < 10 = omega arith in ground arith

is_token-digits : (i : ℕ) → is_token (digits i) ≡ true
unfolding digits
is_token-digits i = is_token-digits_from (suc i) i

read_full_exact :
    (fd p rest : Bytes)
    → read_full fd (length p) (p ++ rest)
      ≡ ok (record { tag = codes "OUT"; fd = fd; payload = p }, rest)
read_full_exact fd p rest =
    ground (arith, length-append p rest, take-append p rest, drop-append p rest)

-- readEvent reads back the frame of writeOutFrame, where the name of the descriptor holds no space
-- and no end of line, whatever bytes the payload holds, and leaves what follows.
pub read_event-write_out_frame :
    (fd p rest : Bytes)
    → is_token fd ≡ true
    → length p < 9223372036854775808
    → read_event (write_out_frame fd p ++ rest)
      ≡ ok (record { tag = codes "OUT"; fd = fd; payload = p }, rest)
unfolding read_event write_out_frame eqs
read_event-write_out_frame fd p rest h l =
    let n = digits (length p) in
    let e =
      read_line-write_line (codes "OUT") (fd ∷ n ∷ []) (p ++ rest)
        (ground (arith, h, is_token-digits (length p))) refl in
    ground (
      arith,
      append_assoc (write_line (codes "OUT" ∷ fd ∷ n ∷ [])) p rest,
      e,
      (atoi-digits (length p) l).0,
      read_full_exact fd p rest,
    )

-- After the HELLO of a client, a command goes to its handler with the rest of the stream, RUN only
-- where the backend has one; any other command ends the connection.
pub serve-dispatch :
    (can_run : Bool) (args : List Bytes) (cmd : Bytes) (more : List Bytes) (rest : Bytes)
    → are_tokens args ≡ true
    → are_tokens (cmd ∷ more) ≡ true
    → eqs cmd [] ≡ false
    → serve can_run (write_line (codes "HELLO" ∷ args) ++ (write_line (cmd ∷ more) ++ rest))
      ≡ dispatch can_run cmd rest
unfolding serve eqs
serve-dispatch can_run args cmd more rest h k e = ground (
  arith,
  read_line-write_line (codes "HELLO") args (write_line (cmd ∷ more) ++ rest) (ground (arith, h))
      refl,
  read_line-write_line cmd more rest k e,
)

-- A blank line in place of the command makes `serve` panic.
pub serve_blank :
    (can_run : Bool) (args : List Bytes) (rest : Bytes)
    → are_tokens args ≡ true
    → serve can_run (write_line (codes "HELLO" ∷ args) ++ 10 ∷ rest) ≡ panicked
unfolding serve read_line read_string trim_right eqs
serve_blank can_run args rest h =
    ground (arith, read_line-write_line (codes "HELLO") args (10 ∷ rest) (ground (arith, h)) refl)
