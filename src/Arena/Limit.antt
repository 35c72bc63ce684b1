-- ===== src/Arena/Limit.antt =====
-- The traversal limit and the bounds check (src/private/arena.rs, `ReadLimiter`, `SegmentReader`).
use capnproto_rust.Base.{
  ◌⊎◌, inl, inr, leb, Bool-cases, ℕ, ◌+◌, ◌-◌, ◌*◌, ◌/◌, ◌≤◌, ◌<◌, ◌≡◌, Bool, true, false, List, [],
  ◌∷◌, arith, if◌then◌else◌,
}
use capnproto_rust.Arena.{ReadLimiter, can_read, SegmentReader, contains_interval, IsPlaced, offset}

-- What an accepted interval is: it lies in the segment, and its words are taken off the limit.
pub record Accepted (s : SegmentReader) (from to limit limit' : ℕ) : Type 0 where
  pub starts : s.ptr ≤ from
  pub ends : to ≤ s.ptr + 8 * s.size
  pub ordered : from ≤ to
  pub paid : limit' + (to - from) / 8 ≡ limit

-- What each answer of a bounds check means.
pub contains_interval_lem :
    (s : SegmentReader) (from to limit : ℕ)
    → IsPlaced s
    → ((contains_interval s from to limit).0 ≡ true
        → Accepted s from to limit (contains_interval s from to limit).1)
      × ((contains_interval s from to limit).0 ≡ false
          → ((contains_interval s from to limit).1 ≡ limit)
            × (s.ptr ≤ from → to ≤ s.ptr + 8 * s.size → from ≤ to → limit < (to - from) / 8))
unfolding contains_interval can_read
contains_interval_lem s from to limit p =
    let end : offset s.ptr s.size ≡ s.ptr + 8 * s.size = omega (arith, p.in_memory) in
    (ground (arith, end), ground (arith, end))

-- Why an interval is refused: it does not lie in the segment, or the limit does not allow its words.
pub record Refused (s : SegmentReader) (from to limit limit' : ℕ) : Type 0 where
  pub free : limit' ≡ limit
  pub reason :
      (from < s.ptr) ⊎ ((s.ptr + 8 * s.size < to) ⊎ ((to < from) ⊎ (limit < (to - from) / 8)))

refusal :
    (s : SegmentReader) (from to limit : ℕ)
    → IsPlaced s
    → (contains_interval s from to limit).0 ≡ false
    → (from < s.ptr) ⊎ ((s.ptr + 8 * s.size < to) ⊎ ((to < from) ⊎ (limit < (to - from) / 8)))
refusal s from to limit p answer = elim (Bool-cases (leb s.ptr from)) [
  | inr e ↦ inl (ground (arith, e))
  | inl a ↦ elim (Bool-cases (leb to (s.ptr + 8 * s.size))) [
    | inr e ↦ inr (inl (ground (arith, e)))
    | inl b ↦ elim (Bool-cases (leb from to)) [
      | inr e ↦ inr (inr (inl (ground (arith, e))))
      | inl c ↦
          let (accepted, refused) = contains_interval_lem s from to limit p in
          inr (
            inr (
              inr ((refused answer).1 (ground (arith, a)) (ground (arith, b)) (ground (arith, c)))))
    ]
  ]
]

-- A bounds check on a segment in memory either accepts an interval that lies in the segment, whose words
-- are then taken off the limit, or refuses one that does not lie in it or whose words the limit does
-- not allow, which costs nothing.
pub contains_interval-decides :
    (s : SegmentReader) (from to limit : ℕ)
    → IsPlaced s
    → (((contains_interval s from to limit).0 ≡ true)
        × Accepted s from to limit (contains_interval s from to limit).1)
      ⊎ (((contains_interval s from to limit).0 ≡ false)
          × Refused s from to limit (contains_interval s from to limit).1)
contains_interval-decides s from to limit p =
    let (accepted, refused) = contains_interval_lem s from to limit p in
    elim (Bool-cases (contains_interval s from to limit).0) [
      | inl e ↦ inl (e, accepted e)
      | inr e ↦ inr (e, record { free = (refused e).0; reason = refusal s from to limit p e })
    ]

-- Every check and every amplified read, in any order, over any segments.
pub data Check : Type 0 where
  interval : SegmentReader → ℕ → ℕ → Check
  amplified : ℕ → Check

abbrev pub run_check : Check → ReadLimiter → Bool × ReadLimiter
run_check (interval s from to) limit = contains_interval s from to limit
run_check (amplified amount) limit = can_read limit amount

-- The words that a check asks for.
abbrev pub cost : Check → ℕ
cost (interval s from to) = (to - from) / 8
cost (amplified amount) = amount

-- The words granted by a run of checks, and the limit at its end.
unfoldable pub run_checks : List Check → ReadLimiter → ℕ × ReadLimiter
run_checks [] limit = (0, limit)
run_checks (c ∷ cs) limit =
    let (granted, limit') = run_check c limit in
    let (words, limit'') = run_checks cs limit' in
    ((if granted then cost c else 0) + words, limit'')

run_check_pays :
    (c : Check) (limit : ℕ)
    → (if (run_check c limit).0 then cost c else 0) + (run_check c limit).1 ≡ limit
unfolding contains_interval can_read
run_check_pays (interval s from to) limit = ground arith
run_check_pays (amplified amount) limit = ground arith

-- However a message is traversed, the words granted and the limit that is left add up to the limit at
-- the start: no traversal is granted more words than `traversal_limit_in_words`.
pub run_checks-limit :
    (cs : List Check) (limit : ℕ) → (run_checks cs limit).0 + (run_checks cs limit).1 ≡ limit
unfolding run_checks
run_checks-limit [] limit = omega arith
run_checks-limit (c ∷ cs) limit =
    omega (arith, run_check_pays c limit, run_checks-limit cs (run_check c limit).1)
