-- ===== src/Layout/Building/Stands.antt =====
-- Where an object lies that `wire_helpers::allocate` has set up (src/private/layout.rs), and what the
-- segments of the message are to its readers (`get_segments_for_output` of src/private/arena.rs).
use capnproto_rust.Base.{
  ℕ, zero, suc, ◌+◌, ◌-◌, ◌*◌, ◌%◌, ◌^◌, ◌≤◌, ◌<◌, ◌≡◌, inl, inr, refl, ap, false, List, [], ◌∷◌,
  some, length, get_elem?, get_elem?-set, map, ◌==◌, arith, Bool-cases, Option-cases,
}
use capnproto_rust.Base.Outcome.{ok}
use capnproto_rust.Arena.{SegmentBuilder, HasUsed, currently_allocated, current_size, offset}
use capnproto_rust.Arena.Builder.{Allocator, BuilderArena, get_segment, get_segments_for_output}
use capnproto_rust.Arena.Granted.{ok_inj}
use capnproto_rust.Arena.Segment.{current_size-HasUsed}
use capnproto_rust.Arena.Reader.{RawSegments, new_reader}
use capnproto_rust.Message.{array_segment}
use capnproto_rust.Layout.Building.{replace_segment}
use capnproto_rust.Layout.Building.Objects.{Allocation}

-- The pointer that describes the object, and its `amount` words, lie in the part of one segment that is
-- in use.
pub record Stands (A : Allocator) (Cap : Type 0) (arena : BuilderArena A Cap) (amount : ℕ)
    (new : Allocation) : Type 0 where
  pub home : SegmentBuilder
  pub used : ℕ
  pub found : get_segment A Cap arena new.segment ≡ ok home
  pub has_used : HasUsed home used
  pub pad_starts : home.reader.ptr ≤ new.reff
  pub pad_ends : new.reff + 8 ≤ home.pos
  pub starts : home.reader.ptr ≤ new.ptr
  pub ends : new.ptr + 8 * amount ≤ home.pos

get_elem?-bound :
    {T : Type 0} (xs : List T) (n : ℕ) (x : T) → get_elem? xs n ≡ some x → n < length xs
get_elem?-bound [] n x h = absurd cc
get_elem?-bound (y ∷ xs) zero x h = omega arith
get_elem?-bound (y ∷ xs) (suc n) x h = omega (arith, get_elem?-bound xs n x h)

get_elem?-map :
    {T U : Type 0} (f : T → U) (xs : List T) (n : ℕ) (x : T)
    → get_elem? xs n ≡ some x
    → get_elem? (map f xs) n ≡ some (f x)
get_elem?-map f [] n x h = absurd cc
get_elem?-map f (y ∷ xs) zero x h = cc
get_elem?-map f (y ∷ xs) (suc n) x h = get_elem?-map f xs n x h

module _ {A : Allocator} {Cap : Type 0} (arena : BuilderArena A Cap) where
  get_segment-suc :
      (n : ℕ) (s : SegmentBuilder)
      → get_segment A Cap arena (suc n) ≡ ok s
      → get_elem? arena.more_segments n ≡ some s
  unfolding get_segment
  get_segment-suc n s =
      let z : (suc n == 0) ≡ false = ground arith in
      let d : suc n - 1 ≡ n = omega arith in
      elim (Option-cases (get_elem? arena.more_segments n)) [
        | inl e ↦ rw (z, d, e) (λ h. absurd cc)
        | inr (x, e) ↦ rw (z, d, e) (λ h. ap some (ok_inj h))
      ]

  pub get_segment-replaced :
      (id : ℕ) (s s' : SegmentBuilder)
      → get_segment A Cap arena id ≡ ok s
      → get_segment A Cap (replace_segment arena id s') id ≡ ok s'
  unfolding get_segment
  get_segment-replaced zero s s' h = refl
  get_segment-replaced (suc n) s s' h =
      let z : (suc n == 0) ≡ false = ground arith in
      let d : suc n - 1 ≡ n = omega arith in
      let b = get_elem?-bound arena.more_segments n s (get_segment-suc n s h) in
      rw (z, d, get_elem?-set arena.more_segments n s' b) refl

  -- The table of the segments that the message is written out as
  abbrev pub outputs : RawSegments
  outputs = array_segment (get_segments_for_output A Cap arena)

  pub outputs-segment :
      (id : ℕ) (s : SegmentBuilder)
      → get_segment A Cap arena id ≡ ok s
      → outputs id ≡ some (currently_allocated s)
  unfolding get_segment get_segments_for_output array_segment
  outputs-segment zero s h = elim (Bool-cases (length arena.more_segments == 0)) [
    | inl e ↦ rw e (ap (λ x. some (currently_allocated x)) (ok_inj h))
    | inr e ↦ rw e (ap (λ x. some (currently_allocated x)) (ok_inj h))
  ]
  outputs-segment (suc n) s h =
      let g = get_segment-suc n s h in
      let b = get_elem?-bound arena.more_segments n s g in
      let e : (length arena.more_segments == 0) ≡ false = ground (arith, b) in
      rw e (get_elem?-map currently_allocated arena.more_segments n s g)

-- A segment as its readers see it: the words that are in use.
pub new_reader-HasUsed :
    (s : SegmentBuilder) (used : ℕ)
    → HasUsed s used
    → new_reader (currently_allocated s) ≡ record { ptr = s.reader.ptr; size = used }
new_reader-HasUsed s used h =
    let p : offset s.reader.ptr 0 ≡ s.reader.ptr = omega (arith, h.placed.in_memory) in
    let n : current_size s % 2 ^ 32 ≡ used =
      omega (arith, current_size-HasUsed s used h, h.fits, h.placed.size_u32) in
    rw (p, n) refl
