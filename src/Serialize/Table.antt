-- ===== src/Serialize/Table.antt =====
-- The segment table as a list of words, and `write_segment_table` (src/serialize.rs) against it.
use capnproto_rust.Base.{
  ℕ, zero, suc, ◌+◌, ◌-◌, ◌*◌, ◌/◌, ◌%◌, ◌≤◌, ◌≡◌, refl, sym, List, [], ◌∷◌, some, arith, length,
  get_elem?, drop, ltb, ◌==◌, eq→==, true, false,
}
use capnproto_rust.Base.Outcome.{Outcome, ok, err, fault, ◌>>=◌}
use capnproto_rust.Words.{Word}
use capnproto_rust.Io.{write_chunks}
use capnproto_rust.Serialize.{table_word, segment_len, write_pairs, write_last, write_segment_table}

-- The lengths behind the first, two in a word.
unfoldable pub length_words : List (List Word) → List Word
length_words [] = []
length_words (a ∷ []) = table_word (length a) 0 ∷ []
length_words (a ∷ b ∷ segments) = table_word (length a) (length b) ∷ length_words segments

-- How many segments there are behind the first, the first length, and the other lengths.
unfoldable pub table_words : List (List Word) → List Word
table_words [] = []
table_words (s ∷ segments) = table_word (length segments) (length s) ∷ length_words segments

-- Each word of the table is written by a call of its own.
abbrev pub singles : List Word → List (List Word)
singles [] = []
singles (w ∷ ws) = (w ∷ []) ∷ singles ws

>>=-ok {ℓ} : {A : Type ℓ} (m : Outcome A) → (m >>= λ a. ok a) ≡ m
>>=-ok (ok a) = refl
>>=-ok (err e) = refl
>>=-ok (fault x) = refl

pub bind_step {ℓ κ μ} :
    {A : Type ℓ} {B : Type κ} {C : Type μ} (m : Outcome A) (f : A → Outcome B) (g : B → Outcome C)
    (h : A → Outcome C)
    → ((a : A) → (f a >>= g) ≡ h a)
    → ((m >>= f) >>= g) ≡ (m >>= h)
bind_step (ok a) f g h e = e a
bind_step (err x) f g h e = refl
bind_step (fault x) f g h e = refl

bind_id {ℓ κ} :
    {A : Type ℓ} {B : Type κ} (m : Outcome A) (f g : A → Outcome B)
    → ((a : A) → f a ≡ g a)
    → (m >>= f) ≡ (m >>= g)
bind_id (ok a) f g e = e a
bind_id (err x) f g e = refl
bind_id (fault x) f g e = refl

get_elem?-of_drop :
    {A : Type 0} (xs : List A) (i : ℕ) (a : A) (r : List A)
    → drop i xs ≡ a ∷ r
    → (get_elem? xs i ≡ some a) × (drop (suc i) xs ≡ r)
get_elem?-of_drop [] zero a r e = cc
get_elem?-of_drop [] (suc i) a r e = cc
get_elem?-of_drop (x ∷ xs) zero a r e = (cc, cc)
get_elem?-of_drop (x ∷ xs) (suc i) a r e = get_elem?-of_drop xs i a r e

segment_len-of_drop :
    (segments : List (List Word)) (i : ℕ) (a : List Word) (r : List (List Word))
    → drop i segments ≡ a ∷ r
    → segment_len segments i ≡ ok (length a)
unfolding segment_len
segment_len-of_drop segments i a r e = rw ((get_elem?-of_drop segments i a r e).0, segment_len)

module _ {W : Type 0} (write_all : W → List Word → Outcome W) (segments : List (List Word)) where
  write_pairs_lem :
      (r : List (List Word)) (k i count : ℕ) (w : W)
      → drop (i * 2 - 1) segments ≡ r
      → 1 ≤ i
      → k ≡ length r / 2
      → count ≡ i * 2 - 1 + length r
      → (write_pairs write_all k i segments w >>= λ w. write_last write_all count segments w)
        ≡ write_chunks write_all w (singles (length_words r))
  unfolding length_words write_chunks write_last write_pairs
  write_pairs_lem [] (suc k) i count w e h hk hc = absurd (omega arith)
  write_pairs_lem (a ∷ []) (suc k) i count w e h hk hc = absurd (omega arith)
  write_pairs_lem (a ∷ b ∷ r) zero i count w e h hk hc = absurd (omega arith)
  write_pairs_lem [] zero i count w e h hk hc =
      let odd : (count % 2 == 0) ≡ false = ground arith in rw odd
  write_pairs_lem (a ∷ []) zero i count w e h hk hc =
      let even : (count % 2 == 0) ≡ true = eq→== _ 0 (omega arith) in
      let last : count - 1 ≡ i * 2 - 1 = omega arith in
      rw (even, last, segment_len-of_drop segments (i * 2 - 1) a [] e)
        (sym (>>=-ok (write_all w _)))
  write_pairs_lem (a ∷ b ∷ r) (suc k) i count w e h hk hc =
      let next : suc (i * 2 - 1) ≡ i * 2 = omega arith in
      let after : suc (i * 2) ≡ (i + 1) * 2 - 1 = omega arith in
      let tail : drop (i * 2) segments ≡ b ∷ r =
        rw next at ((get_elem?-of_drop segments (i * 2 - 1) a (b ∷ r) e).1) in
      let rest : drop ((i + 1) * 2 - 1) segments ≡ r =
        rw after at ((get_elem?-of_drop segments (i * 2) b r tail).1) in
      rw
        (
          segment_len-of_drop segments (i * 2 - 1) a (b ∷ r) e,
          segment_len-of_drop segments (i * 2) b r tail,
        )
        (bind_step (write_all w (table_word (length a) (length b) ∷ [])) _ _ _
          λ w'. write_pairs_lem r k (i + 1) count w' rest (omega arith) (omega arith) (omega arith))

-- `write_segment_table` writes the words of the table, each by a call of its own.
pub write_segment_table_lem :
    {W : Type 0} (write_all : W → List Word → Outcome W) (s : List Word) (r : List (List Word))
    (w : W)
    → write_segment_table write_all (s ∷ r) w
      ≡ write_chunks write_all w (singles (table_words (s ∷ r)))
unfolding write_segment_table table_words write_chunks segment_len
write_segment_table_lem write_all s [] w = unfold length_words in refl
write_segment_table_lem write_all s (t ∷ r) w =
    let many : ltb 1 (length (s ∷ t ∷ r)) ≡ true = ground arith in
    let others : length (s ∷ t ∷ r) - 1 ≡ length (t ∷ r) = omega arith in
    rw (many, others)
      (bind_id (write_all w _) _ _ λ w'.
        write_pairs_lem write_all (s ∷ t ∷ r) (t ∷ r) _ 1 (length (s ∷ t ∷ r)) w' refl (omega arith)
          (omega arith) (omega arith))
