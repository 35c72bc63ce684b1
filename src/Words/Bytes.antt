-- ===== src/Words/Bytes.antt =====
-- Words as bytes and back (src/lib.rs, `impl Word`).
use capnproto_rust.Base.{ℕ, zero, suc, ◌*◌, ◌≡◌, refl, ap, List, [], ◌∷◌, ◌++◌, arith, length}
use capnproto_rust.Words.{Word, word, words_to_bytes, bytes_to_words, allocate_zeroed_vec}

-- Words seen as bytes are the same words again.
pub bytes_to_words-words_to_bytes : (ws : List Word) → bytes_to_words (words_to_bytes ws) ≡ ws
unfolding bytes_to_words words_to_bytes
bytes_to_words-words_to_bytes [] = refl
bytes_to_words-words_to_bytes (word a b c d e f g h ∷ ws) =
    ap (λ vs. word a b c d e f g h ∷ vs) (bytes_to_words-words_to_bytes ws)

pub length-words_to_bytes : (ws : List Word) → length (words_to_bytes ws) ≡ 8 * length ws
unfolding words_to_bytes
length-words_to_bytes [] = refl
length-words_to_bytes (word a b c d e f g h ∷ ws) = omega (arith, length-words_to_bytes ws)

pub words_to_bytes-append :
    (vs ws : List Word) → words_to_bytes (vs ++ ws) ≡ words_to_bytes vs ++ words_to_bytes ws
unfolding words_to_bytes
words_to_bytes-append [] ws = refl
words_to_bytes-append (word a b c d e f g h ∷ vs) ws =
    ap (λ (bs : List ℕ). a ∷ b ∷ c ∷ d ∷ e ∷ f ∷ g ∷ h ∷ bs) (words_to_bytes-append vs ws)

pub length-allocate_zeroed_vec : (n : ℕ) → length (allocate_zeroed_vec n) ≡ n
unfolding allocate_zeroed_vec
length-allocate_zeroed_vec zero = refl
length-allocate_zeroed_vec (suc n) = ap suc (length-allocate_zeroed_vec n)
