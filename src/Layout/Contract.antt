-- ===== src/Layout/Contract.antt =====
-- What a run promises, and how the promises of its parts make that of the whole: for the reading
-- functions of src/private/layout.rs.
pub mod Checks
use capnproto_rust.Base.{
  ℕ, ◌+◌, ◌-◌, ◌*◌, ◌/◌, ◌≤◌, ◌≡◌, refl, sym, ap, ◌∙◌, inl, inr, Bool, true, false, some, arith,
  Bool-cases, Option-cases, if◌then◌else◌, subst,
}
use capnproto_rust.Base.Outcome.{
  Outcome, ok, err, fault, Error, Fault, out_of_bounds, amplified_list, invalid_segment_id,
}
use capnproto_rust.Arena.{SegmentReader, IsPlaced, contains_interval, can_read}
use capnproto_rust.Arena.Limit.{contains_interval_lem}
use capnproto_rust.Arena.Reader.{
  RawSegments, ReaderArena, IsCoherent, new_reader, answer, try_get_segment, try_get_segment-answer,
}
use capnproto_rust.Layout.Memory.{
  ReadState, Run, continue, checked, ◌⟫=◌, lift, pure, fail, arena_segment, bounds_check,
  check_amplified,
}

-- A segment of the message that `table` lists
pub record InMessage (table : RawSegments) (segment : SegmentReader) : Type 0 where
  pub id : ℕ
  pub raw : ℕ × ℕ
  pub listed : table id ≡ some raw
  pub same : segment ≡ new_reader raw

-- A state in which that message can be read.
pub record Ready (table : RawSegments) {Cap : Type 0} (s : ReadState Cap) : Type 0 where
  pub coherent : IsCoherent s.arena
  pub over : s.arena.raw_segments ≡ table

-- After a run: the state is `Ready`, the limit has not grown, a result has the property `P`, and its
-- weight `v` is paid for by the limit and a credit `c`. Only faults in `Q` may come up.
pub record Post (table : RawSegments) (Q : Fault → Type 0) {Cap A : Type 0} (c : ℕ) (P : A → Type 0)
    (v : A → ℕ) (s : ReadState Cap) (r : Outcome A × ReadState Cap) : Type 0 where
  pub ready : Ready table r.1
  pub less : r.1.limit ≤ s.limit
  pub result : (a : A) → r.0 ≡ ok a → P a × (v a + r.1.limit ≤ s.limit + c)
  pub faults : (x : Fault) → r.0 ≡ fault x → Q x

pub record Holds (table : RawSegments) (Q : Fault → Type 0) {Cap A : Type 0} (c : ℕ)
    (P : A → Type 0) (v : A → ℕ) (m : Run Cap A) : Type 0 where
  pub run : (s : ReadState Cap) → Ready table s → Post table Q c P v s (m s)

module _ {table : RawSegments} {Q : Fault → Type 0} {Cap : Type 0} where
  pub Holds-pure :
      {A : Type 0} {c : ℕ} {P : A → Type 0} {v : A → ℕ} (a : A)
      → P a
      → v a ≤ c
      → Holds table Q {Cap = Cap} c P v (pure a)
  Holds-pure {c = c} {P = P} {v = v} a p h = record {
    run = λ s r. record {
      ready = r;
      less = omega arith;
      result = λ b e.
          let t : a ≡ b = cc in
          subst (λ x. P x × (v x + s.limit ≤ s.limit + c)) t (p, omega (arith, h));
      faults = λ x e. absurd cc;
    };
  }

  pub Holds-fail :
      {A : Type 0} {c : ℕ} {P : A → Type 0} {v : A → ℕ} (e : Error)
      → Holds table Q {Cap = Cap} c P v (fail e)
  Holds-fail e = record {
    run = λ s r. record {
      ready = r;
      less = omega arith;
      result = λ b q. absurd cc;
      faults = λ x q. absurd cc;
    };
  }

  pub Holds-fault :
      {A : Type 0} {c : ℕ} {P : A → Type 0} {v : A → ℕ} (x : Fault)
      → Q x
      → Holds table Q {Cap = Cap} c P v (lift (fault x))
  Holds-fault x q = record {
    run = λ s r. record {
      ready = r;
      less = omega arith;
      result = λ b e. absurd cc;
      faults = λ y e. let t : x ≡ y = cc in subst Q t q;
    };
  }

  Post-continue :
      {A B : Type 0} {c : ℕ} {P : A → Type 0} {v : A → ℕ} {P' : B → Type 0} {v' : B → ℕ}
      (f : A → Run Cap B) (s : ReadState Cap) (o : Outcome A) (s' : ReadState Cap)
      → Post table Q c P v s (o, s')
      → ((a : A) → P a → Post table Q (v a) P' v' s' (f a s'))
      → Post table Q c P' v' s (continue f (o, s'))
  Post-continue f s (ok a) s' p k =
      let (pa, paid) = p.result a refl in
      let q = k a pa in
      record {
        ready = q.ready;
        less = omega (arith, q.less, p.less);
        result = λ b e. let (pb, paid') = q.result b e in (pb, omega (arith, paid, paid'));
        faults = q.faults;
      }
  Post-continue f s (err e) s' p k = record {
    ready = p.ready;
    less = p.less;
    result = λ b q. absurd cc;
    faults = λ x q. absurd cc;
  }
  Post-continue f s (fault x) s' p k = record {
    ready = p.ready;
    less = p.less;
    result = λ b q. absurd cc;
    faults = λ y q. let t : x ≡ y = cc in p.faults y (ap fault t);
  }

  -- What the first part has paid for is credit for the second.
  pub Holds-bind :
      {A B : Type 0} {c : ℕ} {P : A → Type 0} {v : A → ℕ} {P' : B → Type 0} {v' : B → ℕ}
      (m : Run Cap A) (f : A → Run Cap B)
      → Holds table Q c P v m
      → ((a : A) → P a → Holds table Q (v a) P' v' (f a))
      → Holds table Q c P' v' (m ⟫= f)
  unfolding ◌⟫=◌
  Holds-bind m f h k = record {
    run = λ s r.
        let p = h.run s r in
        Post-continue f s (m s).0 (m s).1 p (λ a pa. (k a pa).run (m s).1 p.ready);
  }

module _ {table : RawSegments} {Q : Fault → Type 0} {Cap : Type 0} where
  pub Holds-if :
      {A : Type 0} {c : ℕ} {P : A → Type 0} {v : A → ℕ} (b : Bool) (m k : Run Cap A)
      → (b ≡ true → Holds table Q c P v m)
      → (b ≡ false → Holds table Q c P v k)
      → Holds table Q c P v (if b then m else k)
  Holds-if true m k h h' = h refl
  Holds-if false m k h h' = h' refl

  pub Holds-lift :
      {A : Type 0} {c : ℕ} (o : Outcome A) (a : A)
      → o ≡ ok a
      → Holds table Q {Cap = Cap} c (λ b. o ≡ ok b) (λ _. c) (lift o)
  Holds-lift {c = c} o a e =
      subst (λ x. Holds table Q {Cap = Cap} c (λ b. x ≡ ok b) (λ _. c) (lift x)) (sym e)
        (Holds-pure a refl (omega arith))

  pub Holds-mono :
      {A : Type 0} {c : ℕ} {P P' : A → Type 0} {v v' : A → ℕ} (m : Run Cap A)
      → Holds table Q c P v m
      → ((a : A) → P a → P' a × (v' a ≤ v a))
      → Holds table Q c P' v' m
  Holds-mono m h k = record {
    run = λ s r.
        let p = h.run s r in
        record {
          ready = p.ready;
          less = p.less;
          result = λ a e.
              let (q, paid) = p.result a e in let (q', w) = k a q in (q', omega (arith, paid, w));
          faults = p.faults;
        };
  }

  -- Credit that a run does not need is still there after it.
  pub Holds-frame :
      {A : Type 0} {c : ℕ} {P : A → Type 0} {v : A → ℕ} (d : ℕ) (m : Run Cap A)
      → Holds table Q c P v m
      → Holds table Q (d + c) P (λ a. d + v a) m
  Holds-frame d m h = record {
    run = λ s r.
        let p = h.run s r in
        record {
          ready = p.ready;
          less = p.less;
          result = λ a e. let (q, paid) = p.result a e in (q, omega (arith, paid));
          faults = p.faults;
        };
  }
