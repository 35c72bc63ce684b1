-- ===== src/Io/Exact.antt =====
-- `read_exact` (src/util.rs) over any reader that keeps the promise of `std::io::Read`.
use capnproto_rust.Base.{
  ℕ, zero, suc, ◌+◌, ◌-◌, ◌≤◌, ◌<◌, ◌≡◌, refl, sym, ap, ◌∙◌, List, [], ◌∷◌, false, ◌++◌,
  append_assoc, append-nil, arith, length, length-append, length-take, take, drop, concat,
  take-append-drop, ◌==◌, Bool-cases, inl, inr, eq→==, ==→eq,
}
use capnproto_rust.Base.Outcome.{Outcome, ok, err, premature_eof}
use capnproto_rust.Io.{Source, fill_buf, read_source, exact_loop, read_exact}

-- What `read` promises, `view` being the bytes that are still to come: it takes a part of them from
-- the front, at most as many as are asked for, and nothing at all only at the end.
pub record Reads {S : Type 0} (read : ℕ → S → Outcome (List ℕ × S)) (view : S → List ℕ)
    : Type 0 where
  pub bytes : ℕ → S → List ℕ
  pub after : ℕ → S → S
  pub returns : (n : ℕ) (s : S) → read n s ≡ ok (bytes n s, after n s)
  pub takes : (n : ℕ) (s : S) → view s ≡ bytes n s ++ view (after n s)
  pub at_most : (n : ℕ) (s : S) → length (bytes n s) ≤ n
  pub progress : (n : ℕ) (s : S) → 0 < n → length (bytes n s) ≡ 0 → view s ≡ []

module _ {S : Type 0} {read : ℕ → S → Outcome (List ℕ × S)} {view : S → List ℕ}
    (r : Reads read view) where
  not_empty : (n : ℕ) (s : S) → 0 < n → 0 < length (view s) → (length (r.bytes n s) == 0) ≡ false
  not_empty n s h hv = elim (Bool-cases (length (r.bytes n s) == 0)) [
    | inl e ↦ absurd (omega (arith, ap length (r.progress n s h (==→eq _ 0 e))))
    | inr e ↦ e
  ]

  exact_loop_lem :
      (fuel left : ℕ) (out : List ℕ) (s : S)
      → left ≤ fuel
      → left ≤ length (view s)
      → (bs : List ℕ) × (s' : S) × (exact_loop read fuel left out s ≡ ok (out ++ bs, s'))
        × (view s ≡ bs ++ view s')
        × (length bs ≡ left)
  unfolding exact_loop
  exact_loop_lem zero left out s h hv =
      ([], s, rw (eq→== left 0 (omega arith), append-nil), refl, omega arith)
  exact_loop_lem (suc fuel) left out s h hv = elim (Bool-cases (left == 0)) [
    | inl e ↦ ([], s, rw (e, append-nil), refl, ground arith)
    | inr e ↦
        let bs = r.bytes left s in
        let s1 = r.after left s in
        let takes : length (view s) ≡ length bs + length (view s1) =
          ap length (r.takes left s) ∙ length-append bs (view s1) in
        let some_bytes : (length bs == 0) ≡ false =
          not_empty left s (ground arith) (ground arith) in
        let (more, s2, loop, rest, long) =
          exact_loop_lem fuel (left - length bs) (out ++ bs) s1 (ground (arith, r.at_most left s))
            (omega (arith, r.at_most left s)) in
        (
          bs ++ more,
          s2,
          rw (e, r.returns left s, some_bytes) (loop ∙ rw (append_assoc out bs more)),
          r.takes left s ∙ rw (rest, append_assoc bs more (view s2)),
          omega (arith, length-append bs more, r.at_most left s, long),
        )
  ]

  exact_loop_eof :
      (fuel left : ℕ) (out : List ℕ) (s : S)
      → left ≤ fuel
      → length (view s) < left
      → exact_loop read fuel left out s ≡ err premature_eof
  unfolding exact_loop
  exact_loop_eof zero left out s h hv = absurd (omega arith)
  exact_loop_eof (suc fuel) left out s h hv =
      let bs = r.bytes left s in
      let s1 = r.after left s in
      let takes : length (view s) ≡ length bs + length (view s1) =
        ap length (r.takes left s) ∙ length-append bs (view s1) in
      let more : (left == 0) ≡ false = ground arith in
      elim (Bool-cases (length bs == 0)) [
        | inl e ↦ rw (more, r.returns left s, e)
        | inr e ↦
            rw (more, r.returns left s, e)
              (exact_loop_eof fuel (left - length bs) (out ++ bs) s1 (ground arith)
                (omega (arith, r.at_most left s, takes)))
      ]

  -- Over any reader that keeps to `Reads`, however few bytes each of its calls gives: where `n` bytes are
  -- still to come, `read_exact` returns the next `n` and leaves the others.
  pub read_exact_lem :
      (n : ℕ) (s : S)
      → n ≤ length (view s)
      → (bs : List ℕ) × (s' : S) × (read_exact read n s ≡ ok (bs, s'))
        × (view s ≡ bs ++ view s')
        × (length bs ≡ n)
  unfolding read_exact
  read_exact_lem n s h = exact_loop_lem n n [] s (omega arith) h

  -- Over such a reader, where fewer than `n` bytes are to come, `read_exact` ends with a premature end of
  -- file.
  pub read_exact_eof :
      (n : ℕ) (s : S) → length (view s) < n → read_exact read n s ≡ err premature_eof
  unfolding read_exact
  read_exact_eof n s h = exact_loop_eof n n [] s (omega arith) h

exact_loop_done :
    {S : Type 0} (read : ℕ → S → Outcome (List ℕ × S)) (fuel : ℕ) (out : List ℕ) (s : S)
    → exact_loop read fuel 0 out s ≡ ok (out, s)
unfolding exact_loop
exact_loop_done read zero out s = refl
exact_loop_done read (suc fuel) out s = refl

pub read_exact_zero :
    {S : Type 0} (read : ℕ → S → Outcome (List ℕ × S)) (s : S) → read_exact read 0 s ≡ ok ([], s)
unfolding read_exact
read_exact_zero read s = exact_loop_done read 0 [] s

-- A reader that fills the whole buffer at once.
pub read_exact_once :
    {S : Type 0} (read : ℕ → S → Outcome (List ℕ × S)) (n : ℕ) (s : S) {bs : List ℕ} {s' : S}
    → 0 < n
    → read n s ≡ ok (bs, s')
    → length bs ≡ n
    → read_exact read n s ≡ ok (bs, s')
unfolding read_exact exact_loop
read_exact_once read zero s pos e h = absurd (omega arith)
read_exact_once read (suc n) s {bs} {s'} pos e h =
    let full : (length bs == 0) ≡ false = ground arith in
    let none_left : suc n - length bs ≡ 0 = omega arith in
    let more : (suc n == 0) ≡ false = ground arith in
    rw (more, e, full, none_left) (exact_loop_done read n bs s')

pub concat-fill_buf : (src : Source) → (fill_buf src).0 ++ concat (fill_buf src).1 ≡ concat src
unfolding fill_buf
concat-fill_buf [] = refl
concat-fill_buf ([] ∷ cs) = concat-fill_buf cs
concat-fill_buf ((b ∷ bs) ∷ cs) = refl

pub fill_buf-eof : (src : Source) → length (fill_buf src).0 ≡ 0 → concat src ≡ []
unfolding fill_buf
fill_buf-eof [] h = refl
fill_buf-eof ([] ∷ cs) h = fill_buf-eof cs h
fill_buf-eof ((b ∷ bs) ∷ cs) h = absurd (omega arith)

-- A buffered source keeps the promise.
pub Reads-source : Reads read_source concat
unfolding read_source
Reads-source = record {
  bytes = λ n src. take n (fill_buf src).0;
  after = λ n src. drop n (fill_buf src).0 ∷ (fill_buf src).1;
  returns = λ n src. refl;
  takes = λ n src.
      sym (concat-fill_buf src)
      ∙ ap (λ bs. bs ++ concat (fill_buf src).1) (sym (take-append-drop n (fill_buf src).0))
      ∙ append_assoc (take n (fill_buf src).0) _ _;
  at_most = λ n src. omega (arith, length-take n (fill_buf src).0);
  progress = λ n src h e. fill_buf-eof src (omega (arith, length-take n (fill_buf src).0));
}
