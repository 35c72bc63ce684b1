-- ===== src/Packed/Tests.antt =====
-- The packed encoding on concrete words, those of the unit tests of src/serialize_packed.rs among them.
use capnproto_rust.Base.{
  ℕ, ◌≡◌, refl, ◌∙◌, List, [], ◌∷◌, ◌++◌, concat, length, ◌==◌, if◌then◌else◌,
}
use capnproto_rust.Base.Outcome.{ok, map_ok}
use capnproto_rust.Words.{Word, word, zero_word, words_to_bytes}
use capnproto_rust.Io.{Source, write_chunks}
use capnproto_rust.Packed.Write.{write, zero_run, raw_run}
use capnproto_rust.Packed.Encoding.{unbuffered}
use capnproto_rust.Packed.Format.{encoding, write-encoding}
use capnproto_rust.Packed.Read.{read}
use capnproto_rust.Packed.Decoding.{decode}
use capnproto_rust.Packed.Refinement.{flat_result, read-decode}
use capnproto_rust.Packed.RoundTrip.{encodings, read-write, write_chunks-encodings}

abbrev mixed : List Word
mixed = word 8 0 100 6 0 1 1 2 ∷ zero_word ∷ zero_word ∷ word 0 0 1 0 2 0 3 1 ∷ []

abbrev full : List Word
full = word 1 3 2 4 5 7 6 8 ∷ word 8 6 7 4 5 2 3 1 ∷ word 0 0 0 0 0 0 0 9 ∷ []

abbrev packed : List ℕ
packed =
    237 ∷ 8 ∷ 100 ∷ 6 ∷ 1 ∷ 1 ∷ 2 ∷ 0 ∷ 1 ∷ 212 ∷ 1 ∷ 2 ∷ 3 ∷ 1 ∷ 255 ∷ 1 ∷ 3 ∷ 2 ∷ 4 ∷ 5 ∷ 7 ∷ 6
    ∷ 8 ∷ 1 ∷ 8 ∷ 6 ∷ 7 ∷ 4 ∷ 5 ∷ 2 ∷ 3 ∷ 1 ∷ 128 ∷ 9 ∷ []

-- The stream arrives in two pieces, and a byte follows that is not part of it.
abbrev arriving : Source
arriving =
    (237 ∷ 8 ∷ 100 ∷ [])
    ∷ []
    ∷ (6 ∷ 1 ∷ 1 ∷ 2 ∷ 0 ∷ 1 ∷ 212 ∷ 1 ∷ 2 ∷ 3 ∷ 1 ∷ 255 ∷ 1 ∷ 3 ∷ 2 ∷ 4 ∷ 5 ∷ 7 ∷ 6 ∷ 8 ∷ 1 ∷ 8 ∷ 6
        ∷ 7 ∷ 4 ∷ 5 ∷ 2 ∷ 3 ∷ 1 ∷ 128 ∷ 9 ∷ 77 ∷ [])
    ∷ []

encodings-packed : ok ([] ++ encodings (mixed ∷ full ∷ [])) ≡ ok packed
unfolding encodings unbuffered zero_run raw_run words_to_bytes
encodings-packed = refl

packed-is_written : write_chunks write [] (mixed ∷ full ∷ []) ≡ ok packed
packed-is_written = write_chunks-encodings [] (mixed ∷ full ∷ []) ∙ encodings-packed

write-encoding_example : write (1 ∷ []) mixed ≡ ok ((1 ∷ []) ++ encoding 4 mixed)
write-encoding_example = write-encoding (1 ∷ []) mixed

read-write_example :
    (src' : Source) × (read 56 arriving ≡ ok (words_to_bytes (concat (mixed ∷ full ∷ [])), src'))
    × (concat src' ≡ 77 ∷ [])
read-write_example = read-write (mixed ∷ full ∷ []) packed (77 ∷ []) arriving packed-is_written refl

read-decode_example :
    map_ok flat_result (read 8 arriving)
    ≡ (if length (concat arriving) == 0 then ok ([], []) else decode 8 8 [] (concat arriving))
read-decode_example = read-decode 1 arriving
