-- ===== src/Serialize/Channel.antt =====
-- What the framing asks of a byte stream: that a reader gives back what a writer wrote, in whole
-- words, without looking at how many calls wrote them. The plain stream and the packed one keep this.
use capnproto_rust.Base.{
  ℕ, ◌*◌, ◌≡◌, refl, sym, ap, ◌∙◌, List, [], ◌∷◌, ◌++◌, append_assoc, arith, length, length-append,
  concat, inl, inr, Bool-cases, ==→eq, ◌==◌,
}
use capnproto_rust.Base.Outcome.{Outcome, ok}
use capnproto_rust.Words.{Word, words_to_bytes}
use capnproto_rust.Words.Bytes.{length-words_to_bytes, words_to_bytes-append}
use capnproto_rust.Io.{Source, read_exact, total_words}
use capnproto_rust.Io.Exact.{Reads, read_exact_lem, read_exact_once, read_exact_zero}
use capnproto_rust.Packed.Read
use capnproto_rust.Packed.RoundTrip.{encodings, encodings-none, words_of_none, read-encodings}

-- `Holds cs rest s`: the words of `cs` are the next to come from `s`, and `rest` is behind them.
pub record Channel {S : Type 0} (read : ℕ → S → Outcome (List ℕ × S)) : Type 1 where
  pub Holds : List (List Word) → List ℕ → S → Type 0
  pub deliver :
      (cs ds : List (List Word)) (rest : List ℕ) (s : S)
      → Holds (cs ++ ds) rest s
      → (s' : S) × (read_exact read (8 * total_words cs) s ≡ ok (words_to_bytes (concat cs), s'))
        × Holds ds rest s'

pub total_words-concat : (cs : List (List Word)) → total_words cs ≡ length (concat cs)
total_words-concat [] = refl
total_words-concat (c ∷ cs) = omega (arith, total_words-concat cs, length-append c (concat cs))

concat-append : {A : Type 0} (xs ys : List (List A)) → concat (xs ++ ys) ≡ concat xs ++ concat ys
concat-append [] ys = refl
concat-append (x ∷ xs) ys = rw (concat-append xs ys) (sym (append_assoc x (concat xs) (concat ys)))

-- Equal lists, cut at the same place.
append-cut :
    (xs ys us vs : List ℕ) → length xs ≡ length us → xs ++ ys ≡ us ++ vs → (xs ≡ us) × (ys ≡ vs)
append-cut [] ys [] vs h e = (refl, e)
append-cut [] ys (u ∷ us) vs h e = absurd (omega arith)
append-cut (x ∷ xs) ys [] vs h e = absurd (omega arith)
append-cut (x ∷ xs) ys (u ∷ us) vs h e =
    let (p, q) = append-cut xs ys us vs (omega arith) cc in (cc, q)

pub plain_deliver :
    {S : Type 0} {read : ℕ → S → Outcome (List ℕ × S)} {view : S → List ℕ} (r : Reads read view)
    (cs ds : List (List Word)) (rest : List ℕ) (s : S)
    → view s ≡ words_to_bytes (concat (cs ++ ds)) ++ rest
    → (s' : S) × (read_exact read (8 * total_words cs) s ≡ ok (words_to_bytes (concat cs), s'))
      × (view s' ≡ words_to_bytes (concat ds) ++ rest)
plain_deliver {view} r cs ds rest s h =
    let size : length (words_to_bytes (concat cs)) ≡ 8 * total_words cs =
      omega (arith, length-words_to_bytes (concat cs), total_words-concat cs) in
    let whole : view s ≡ words_to_bytes (concat cs) ++ (words_to_bytes (concat ds) ++ rest) =
      h ∙ rw (concat-append cs ds, words_to_bytes-append, append_assoc) in
    let (bs, s', got, split, l) = read_exact_lem r (8 * total_words cs) s (
      omega (
        arith,
        ap length whole,
        size,
        length-append (words_to_bytes (concat cs)) (words_to_bytes (concat ds) ++ rest),
      )) in
    let (same, behind) =
      append-cut bs (view s') (words_to_bytes (concat cs)) (words_to_bytes (concat ds) ++ rest)
        (omega arith) (sym split ∙ whole) in
    (s', got ∙ ap (λ o. ok (o, s')) same, behind)

-- Any reader that keeps the promise of `Read` carries bytes as they are.
abbrev pub plain_channel :
    {S : Type 0} {read : ℕ → S → Outcome (List ℕ × S)} {view : S → List ℕ}
    → Reads read view
    → Channel read
plain_channel {view} r = record {
  Holds = λ cs rest s. view s ≡ words_to_bytes (concat cs) ++ rest;
  deliver = plain_deliver r;
}

encodings-append : (cs ds : List (List Word)) → encodings (cs ++ ds) ≡ encodings cs ++ encodings ds
unfolding encodings
encodings-append [] ds = refl
encodings-append (c ∷ cs) ds = rw (encodings-append cs ds) (sym (append_assoc _ (encodings cs) _))

pub packed_deliver :
    (cs ds : List (List Word)) (rest : List ℕ) (src : Source)
    → concat src ≡ encodings (cs ++ ds) ++ rest
    → (src' : Source) × (read_exact Read.read (8 * total_words cs) src
        ≡ ok (words_to_bytes (concat cs), src'))
      × (concat src' ≡ encodings ds ++ rest)
packed_deliver cs ds rest src h =
    let whole : concat src ≡ encodings cs ++ (encodings ds ++ rest) =
      h ∙ rw (encodings-append cs ds, append_assoc) in
    elim (Bool-cases (total_words cs == 0)) [
      | inl e ↦
          let zero_words : total_words cs ≡ 0 = ==→eq _ 0 e in
          (
            src,
            rw (zero_words, words_of_none cs zero_words) (read_exact_zero Read.read src),
            whole ∙ rw (encodings-none cs zero_words),
          )
      | inr e ↦
          let (src', got, behind) = read-encodings cs (encodings ds ++ rest) src whole in
          (
            src',
            read_exact_once Read.read (8 * total_words cs) src (ground arith) got
                (omega (arith, length-words_to_bytes (concat cs), total_words-concat cs)),
            behind,
          )
    ]

-- The packed reader over a buffered source.
abbrev pub packed_channel : Channel Read.read
packed_channel = record {
  Holds = λ cs rest src. concat src ≡ encodings cs ++ rest;
  deliver = packed_deliver;
}
