-- ===== src/Samples/ProtocolRuns.antt =====
-- The theorems on the text protocol, run on short streams.
use sandman.Prelude.{Bytes, codes, ◌≡◌, refl, true, [], ◌∷◌, ◌++◌, arith}
use sandman.Prelude.Result.{ok}
use sandman.Protocol.{write_line, write_out_frame, read_event, serve, panicked}
use sandman.Protocol.Frames.{read_event-write_out_frame, serve_blank}

abbrev out : Bytes
out = 10 ∷ 32 ∷ 0 ∷ []

read_event-write_out_frame_example :
    read_event (write_out_frame (codes "1") out ++ codes "EXIT")
    ≡ ok (record { tag = codes "OUT"; fd = codes "1"; payload = out }, codes "EXIT")
read_event-write_out_frame_example =
    read_event-write_out_frame (codes "1") out (codes "EXIT") refl (omega arith)

serve_blank_example : serve true (write_line (codes "HELLO" ∷ []) ++ 10 ∷ []) ≡ panicked
serve_blank_example = serve_blank true [] [] refl
