-- ===== src/Io/Tests.antt =====
-- `read_exact` on a source of three buffers.
use capnproto_rust.Base.{ℕ, ◌≡◌, List, [], ◌∷◌, ◌++◌, arith, length, concat}
use capnproto_rust.Base.Outcome.{ok, err, premature_eof}
use capnproto_rust.Io.{Source, read_source, read_exact}
use capnproto_rust.Io.Exact.{Reads-source, read_exact_lem, read_exact_eof}

abbrev three_buffers : Source
three_buffers = (1 ∷ 2 ∷ []) ∷ [] ∷ (3 ∷ 4 ∷ 5 ∷ []) ∷ []

read_exact_example :
    (bs : List ℕ) × (src : Source) × (read_exact read_source 3 three_buffers ≡ ok (bs, src))
    × (concat three_buffers ≡ bs ++ concat src)
    × (length bs ≡ 3)
read_exact_example = read_exact_lem Reads-source 3 three_buffers (omega arith)

read_exact_eof_example : read_exact read_source 6 three_buffers ≡ err premature_eof
read_exact_eof_example = read_exact_eof Reads-source 6 three_buffers (omega arith)
