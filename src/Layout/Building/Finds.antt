-- ===== src/Layout/Building/Finds.antt =====
-- What `wire_helpers::allocate` does to a null pointer (src/private/layout.rs): it makes an empty struct,
-- finds room in the segment of the pointer, or goes to another segment.
use capnproto_rust.Base.{
  ℕ, ◌+◌, ◌-◌, ◌*◌, ◌/◌, ◌%◌, ◌^◌, ◌≤◌, ◌<◌, ◌≡◌, ◌≢◌, inl, inr, refl, ap, ◌∙◌, true, false, length,
  ◌==◌, ◌&&◌, leb, arith, Bool-cases, some, none,
}
use capnproto_rust.Base.Outcome.{ok}
use capnproto_rust.Arena.{
  SegmentReader, SegmentBuilder, offset, get_word_offset_to, HasUsed, allocate_in,
}
use capnproto_rust.Arena.Builder.{Allocator, BuilderArena, get_segment, allocate}
use capnproto_rust.Arena.Granted.{IsBuilt, Granted}
use capnproto_rust.Arena.Apart.{IsLaidOut, Granted-unused}
use capnproto_rust.Layout.Pointer.{
  WirePointerKind, struct, list, far, other, kind_code, is_null, set_kind_and_target,
  set_kind_and_target_for_empty_struct, set_far, set_far_ref,
}
use capnproto_rust.Layout.Fields.{Reaches, forwards, target-set_kind_and_target, empty_struct_lem}
use capnproto_rust.Layout.Memory.{pointer_at}
use capnproto_rust.Layout.Building.{BuildState, replace_segment}
use capnproto_rust.Layout.Building.Written.{Outside, write_pointer-off}
use capnproto_rust.Layout.Building.Objects.{Allocation, is_struct, allocate_object}
use capnproto_rust.Layout.Building.Allocated.{
  put, far_written, pad_written, allocate_object-empty, allocate_object-null, allocate_words-near,
  allocate_words-full, allocate_far-ok,
}
use capnproto_rust.Layout.Building.Stands.{Stands, get_segment-replaced}
use capnproto_rust.Layout.Building.Unused.{IsZeroed, rest_not_in_use, Granted-not_in_use}
use capnproto_rust.Layout.Building.Leads.{Leads}
use capnproto_rust.Layout.Building.SetUp.{Leads-here, Leads-far, set_kind-small}

-- A word of the segment `segment` that is in use
pub record InUse (A : Allocator) (Cap : Type 0) (arena : BuilderArena A Cap) (segment a : ℕ)
    : Type 0 where
  pub home : SegmentBuilder
  pub found : get_segment A Cap arena segment ≡ ok home
  pub index : ℕ
  pub at : a ≡ home.reader.ptr + 8 * index
  pub used : a + 8 ≤ home.pos

pub empty_case :
    (amount : ℕ) (k : WirePointerKind)
    → (amount == 0 && is_struct k) ≡ true
    → (amount ≡ 0) × (k ≡ struct)
empty_case amount struct h = (ground (arith, h), refl)
empty_case amount list h = absurd (ground (arith, h))
empty_case amount far h = absurd (ground (arith, h))
empty_case amount other h = absurd (ground (arith, h))

filled_case :
    (amount o u : ℕ) (k : WirePointerKind)
    → (amount == 0 && is_struct k) ≡ false
    → kind_code k ≤ o
    → (0 < amount → 0 < u + kind_code k)
    → 0 < o + u
filled_case amount o u struct e l h = elim (Bool-cases (amount == 0)) [
  | inl z ↦ absurd (ground (arith, z, e))
  | inr z ↦ omega (arith, h (ground (arith, z)), l)
]
filled_case amount o u list e l h = omega (arith, l)
filled_case amount o u far e l h = omega (arith, l)
filled_case amount o u other e l h = omega (arith, l)

word_offset :
    (s : SegmentBuilder) (ptr n : ℕ)
    → ptr ≡ s.reader.ptr + 8 * n
    → n < 2 ^ 29
    → get_word_offset_to s ptr ≡ ok n
unfolding get_word_offset_to
word_offset s ptr n e h =
    let b : leb s.reader.ptr ptr ≡ true = ground (arith, e) in
    let q : (ptr - s.reader.ptr) / 8 % 2 ^ 32 ≡ n = omega (arith, e, h) in rw b (ap ok q)

module _ {A : Allocator} {Cap : Type 0} where
  -- The words of the allocation are zero afterwards, if what was not in use was zero.
  abbrev pub IsFresh : (s s' : BuildState A Cap) → ℕ → Allocation → Type 0
  IsFresh s s' amount new =
      IsZeroed A Cap s.arena s.memory
      → (a : ℕ) → new.ptr ≤ a
      → a < new.ptr + 8 * amount
      → s'.memory a ≡ 0

module _ {A : Allocator} {Cap : Type 0} (fuel reff segment : ℕ) (s : BuildState A Cap) where
  -- The run succeeds, and the pointer leads to what it returns.
  abbrev pub Finds : ℕ → WirePointerKind → Type 0
  Finds n k =
      (new : Allocation) × (s' : BuildState A Cap) × (allocate_object fuel reff segment n k s
        ≡ (ok new, s'))
      × Leads reff segment n k new s'
      × Stands A Cap s'.arena n new
      × IsFresh s s' n new

  pub Finds-empty :
      (used : ℕ) (w : InUse A Cap s.arena segment reff)
      → HasUsed w.home used
      → is_null (pointer_at s.memory reff) ≡ true
      → Finds 0 struct
  Finds-empty used w u e =
      let h : reff < 2 ^ 64 = omega (arith, w.used, u.position, u.fits, u.placed.in_memory) in
      let p = set_kind_and_target_for_empty_struct (pointer_at s.memory reff) in
      let (k, t, f) = empty_struct_lem reff (pointer_at s.memory reff) h in
      (
        record { reff = reff; segment = segment; ptr = reff },
        put reff p s,
        allocate_object-empty fuel reff segment s e,
        Leads-here reff segment 0 reff struct p s (omega arith) k (λ q. absurd cc) t
            (inr (omega arith)) (λ u g. omega arith),
        record {
          home = w.home;
          used = used;
          found = w.found;
          has_used = u;
          pad_starts = omega (arith, w.at);
          pad_ends = w.used;
          starts = omega (arith, w.at);
          ends = omega (arith, w.used);
        },
        λ z a from to. absurd (omega (arith, from, to)),
      )

  module _ (amount : ℕ) (k : WirePointerKind) (near : k ≢ far)
      (e : is_null (pointer_at s.memory reff) ≡ true) (e' : (amount == 0 && is_struct k) ≡ false)
      (w : InUse A Cap s.arena segment reff) (l : IsLaidOut A Cap s.arena)
      (b : IsBuilt A Cap s.arena) where
    pub Finds-near :
        (used : ℕ) (home' : SegmentBuilder)
        → HasUsed w.home used
        → allocate_in w.home amount ≡ some (w.home.pos, home')
        → HasUsed home' (used + amount)
        → home'.reader ≡ w.home.reader
        → Finds amount k
    Finds-near used home' h a h' same =
        let ptr = w.home.pos in
        let old = pointer_at s.memory reff in
        let small = l.small segment w.home w.found in
        let reaches : Reaches reff ptr =
          forwards (used - w.index) (omega (arith, h.fits, small))
            (omega (arith, w.at, w.used, h.position)) in
        let (low, has_kind) = set_kind-small reff ptr k old reaches in
        let (t, is_k, u) =
          target-set_kind_and_target reff ptr k old
            (omega (arith, w.used, h.position, h.fits, h.placed.in_memory))
            (omega (arith, h.position, h.fits, h.placed.in_memory)) reaches in
        let s0 : BuildState A Cap = record s { arena = replace_segment s.arena segment home' } in
        (
          record { reff = reff; segment = segment; ptr = ptr },
          put reff (set_kind_and_target reff k ptr old) s0,
          allocate_object-null fuel reff segment amount k s e e'
              ∙ allocate_words-near reff segment amount ptr k w.home home' s w.found a,
          Leads-here reff segment amount ptr k (set_kind_and_target reff k ptr old) s0 low is_k near
              t (inl (omega (arith, w.used)))
              (λ v f.
                filled_case amount (set_kind_and_target reff k ptr old).offset_and_kind v k e'
                  has_kind f),
          let begins : home'.reader.ptr ≡ w.home.reader.ptr =
                ap (λ (x : SegmentReader). x.ptr) same in
              record {
                home = home';
                used = used + amount;
                found = get_segment-replaced s.arena segment w.home home' w.found;
                has_used = h';
                pad_starts = omega (arith, w.at, begins);
                pad_ends = omega (arith, w.used, h.position, h'.position, begins);
                starts = omega (arith, h.position, begins);
                ends = omega (arith, h.position, h'.position, begins);
              },
          λ z a from to.
              write_pointer-off reff (set_kind_and_target reff k ptr old) s.memory a
                (inr (omega (arith, w.used, from)))
              ∙ z a (
                  rest_not_in_use s.arena segment w.home a b l w.found from (
                    omega
                      (arith, to, h.position, h'.fits, ap (λ (x : SegmentReader). x.size) same))),
        )

    pub Finds-far :
        (id ptr : ℕ) (arena' : BuilderArena A Cap)
        → allocate_in w.home amount ≡ none
        → amount + 1 < 2 ^ 32
        → length s.arena.more_segments + 1 < 2 ^ 32
        → allocate A Cap s.arena (amount + 1) ≡ ok ((id, ptr), arena')
        → Granted A Cap s.arena (amount + 1) id ptr arena'
        → IsLaidOut A Cap arena'
        → Finds amount k
    Finds-far id ptr arena' a small few q g l' =
        let s0 : BuildState A Cap = record s { arena = arena' } in
        let i = b segment w.home w.found in
        let m : (amount + 1) % 2 ^ 32 ≡ amount + 1 = omega (arith, small) in
        let size = l'.small id g.segment g.found in
        let pos_small : g.used < 2 ^ 29 = omega (arith, size, g.has_used.fits) in
        let room : ptr + 8 * (amount + 1) < 2 ^ 64 =
          omega (arith, g.start, g.has_used.fits, g.has_used.placed.in_memory) in
        let apart =
          Granted-unused A Cap s.arena (amount + 1) id ptr arena' g l' segment w.home reff 8 w.found
            (omega (arith, i.has_used.position, i.has_used.fits)) (omega (arith, w.at)) w.used in
        let new : Allocation = record { reff = ptr; segment = id; ptr = offset ptr 1 } in
        (
          new,
          pad_written ptr k (far_written reff g.used id s0),
          allocate_object-null fuel reff segment amount k s e e'
              ∙ allocate_words-full reff segment amount k w.home s w.found a
              ∙ allocate_far-ok reff amount id ptr g.used k arena' g.segment s
                  (ap (allocate A Cap s.arena) m ∙ q) g.found
                  (word_offset g.segment ptr g.used g.start pos_small)
              ∙ ap (λ x. (ok new, pad_written ptr k (far_written reff g.used x s0))) g.named,
          Leads-far reff segment amount ptr g.used id k g.segment s0 near pos_small
              (omega (arith, g.id_bound, few)) g.found (omega (arith, g.start, room)) apart
              (omega (arith, room)),
          record {
            home = g.segment;
            used = g.used + (amount + 1);
            found = g.found;
            has_used = g.has_used;
            pad_starts = omega (arith, g.start);
            pad_ends = omega (arith, g.start, g.has_used.position);
            starts = omega (arith, g.start, room);
            ends = omega (arith, g.start, g.has_used.position, room);
          },
          λ z a from to.
              let off : Outside reff 8 a = elim apart [
                | inl before ↦ inr (omega (arith, before, from, room))
                | inr behind ↦ inl (omega (arith, behind, to, room))
              ] in
              let p1 = set_far false g.used (pointer_at s.memory reff) in
              let s1 = put reff p1 s0 in
              let p2 = set_far_ref id (pointer_at s1.memory reff) in
              let s2 = put reff p2 s1 in
              write_pointer-off ptr
                (set_kind_and_target ptr k (offset ptr 1) (pointer_at s2.memory ptr)) s2.memory a
                (inr (omega (arith, from, room)))
              ∙ write_pointer-off reff p2 s1.memory a off
              ∙ write_pointer-off reff p1 s.memory a off
              ∙ z a (
                  Granted-not_in_use s.arena arena' (amount + 1) id ptr a b g l'
                    (omega (arith, from, room)) (omega (arith, to, room))),
        )
