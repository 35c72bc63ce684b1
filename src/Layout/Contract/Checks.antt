-- ===== src/Layout/Contract/Checks.antt =====
-- The contracts of the bounds checks and of the lookup of a segment (src/private/layout.rs,
-- src/private/arena.rs).
use capnproto_rust.Base.{
  ℕ, ◌+◌, ◌-◌, ◌*◌, ◌/◌, ◌≤◌, ◌≡◌, refl, sym, ap, ◌∙◌, inl, inr, Bool, true, false, some, arith,
  Bool-cases, Option-cases, subst,
}
use capnproto_rust.Base.Outcome.{
  Outcome, ok, err, fault, Error, Fault, out_of_bounds, amplified_list, invalid_segment_id,
}
use capnproto_rust.Arena.{SegmentReader, IsPlaced, contains_interval, can_read}
use capnproto_rust.Arena.Limit.{contains_interval_lem}
use capnproto_rust.Arena.Reader.{
  RawSegments, ReaderArena, new_reader, answer, try_get_segment, try_get_segment-answer,
}
use capnproto_rust.Layout.Memory.{ReadState, checked, arena_segment, bounds_check, check_amplified}
use capnproto_rust.Layout.Contract.{InMessage, Ready, Post, Holds}

-- Every segment of the message lies in memory.
abbrev pub Mapped : RawSegments → Type 0
Mapped table = (id : ℕ) (raw : ℕ × ℕ) → table id ≡ some raw → IsPlaced (new_reader raw)

pub InMessage-IsPlaced :
    {table : RawSegments} (s : SegmentReader) → Mapped table → InMessage table s → IsPlaced s
InMessage-IsPlaced s m i = subst IsPlaced (sym i.same) (m i.id i.raw i.listed)

-- The interval lies in the segment.
pub record Inside (segment : SegmentReader) (start end : ℕ) : Type 0 where
  pub starts : segment.ptr ≤ start
  pub ends : end ≤ segment.ptr + 8 * segment.size
  pub ordered : start ≤ end

arena_segment-eq :
    {Cap : Type 0} (id : ℕ) (s : ReadState Cap) (o : Outcome (SegmentReader × ReaderArena Cap))
    → try_get_segment s.arena id ≡ o
    → arena_segment id s ≡ elim o as (λ _. Outcome SegmentReader × ReadState Cap) [
      | ok (segment, arena) ↦ (ok segment, record s { arena = arena })
      | err e ↦ (err e, s)
      | fault x ↦ (fault x, s)
    ]
unfolding arena_segment
arena_segment-eq id s o e = rw (arena_segment, e) refl

answer-InMessage :
    {table : RawSegments} (id : ℕ) (s : SegmentReader)
    → answer (table id) ≡ ok s
    → InMessage table s
answer-InMessage {table = table} id s = elim (Option-cases (table id)) [
  | inl n ↦ rw n (λ h. absurd cc)
  | inr (raw, e) ↦ rw e (λ h. record { id = id; raw = raw; listed = e; same = cc })
]

contains_interval-less :
    (s : SegmentReader) (from to limit : ℕ)
    → IsPlaced s
    → (contains_interval s from to limit).1 ≤ limit
contains_interval-less s from to limit p =
    let (granted, refused) = contains_interval_lem s from to limit p in
    elim (Bool-cases (contains_interval s from to limit).0) [
      | inl e ↦ omega (arith, (granted e).paid)
      | inr e ↦ omega (arith, (refused e).0)
    ]

module _ {table : RawSegments} {Q : Fault → Type 0} {Cap : Type 0} where
  Post-checked :
      {c w : ℕ} {P : Unit {0} → Type 0} (e : Error) (s : ReadState Cap) (granted : Bool)
      (limit' : ℕ)
      → Ready table s
      → (granted ≡ true → P tt × (w + limit' ≤ s.limit + c))
      → limit' ≤ s.limit
      → Post table Q c P (λ _. w) s (checked e (granted, limit') s)
  Post-checked e s true limit' r h l = record {
    ready = record { coherent = r.coherent; over = r.over };
    less = l;
    result = λ a q. h refl;
    faults = λ x q. absurd cc;
  }
  Post-checked e s false limit' r h l = record {
    ready = record { coherent = r.coherent; over = r.over };
    less = l;
    result = λ a q. absurd cc;
    faults = λ x q. absurd cc;
  }

  -- A bounds check that succeeds has paid for the words.
  pub Holds-bounds_check :
      {c : ℕ} (segment : SegmentReader) (start end : ℕ)
      → IsPlaced segment
      → Holds table Q {Cap = Cap} c
          (λ _. Inside segment start end)
          (λ _. c + (end - start) / 8)
          (bounds_check (some segment) start end)
  unfolding bounds_check
  Holds-bounds_check {c = c} segment start end p = record {
    run = λ s r.
        let (granted, refused) = contains_interval_lem segment start end s.limit p in
        Post-checked out_of_bounds s (contains_interval segment start end s.limit).0
          (contains_interval segment start end s.limit).1 r
          (λ g.
            let a = granted g in
            (
              record { starts = a.starts; ends = a.ends; ordered = a.ordered },
              omega (arith, a.paid),
            ))
          (contains_interval-less segment start end s.limit p);
  }

  pub Holds-check_amplified :
      {c : ℕ} (segment : SegmentReader) (amount : ℕ)
      → Holds table Q {Cap = Cap} c
          (λ _. Unit {0})
          (λ _. c + amount)
          (check_amplified (some segment) amount)
  unfolding check_amplified can_read
  Holds-check_amplified segment amount = record {
    run = λ s r.
        Post-checked amplified_list s (can_read s.limit amount).0 (can_read s.limit amount).1 r
          (λ g. (tt, ground (arith, g))) (ground arith);
  }

  pub Holds-arena_segment :
      {c : ℕ} (id : ℕ) → Holds table Q {Cap = Cap} c (InMessage table) (λ _. c) (arena_segment id)
  Holds-arena_segment {c = c} id = record {
    run = λ s r. elim (try_get_segment-answer s.arena id r.coherent) [
      | inl (n, e) ↦
          subst (Post table Q c (InMessage table) (λ _. c) s)
            (sym (arena_segment-eq id s (err invalid_segment_id) e))
            (record {
              ready = r;
              less = omega arith;
              result = λ a q. absurd cc;
              faults = λ x q. absurd cc;
            })
      | inr (segment, arena', a, e, c', same) ↦
          let i : InMessage table segment =
            answer-InMessage id segment (ap (λ t. answer (t id)) (sym r.over) ∙ a) in
          subst (Post table Q c (InMessage table) (λ _. c) s)
            (sym (arena_segment-eq id s (ok (segment, arena')) e))
            (record {
              ready = record { coherent = c'; over = same ∙ r.over };
              less = omega arith;
              result = λ b q.
                  let t : segment ≡ b = cc in
                  subst (λ x. InMessage table x × (c + s.limit ≤ s.limit + c)) t (i, omega arith);
              faults = λ x q. absurd cc;
            })
    ];
  }
