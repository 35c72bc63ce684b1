-- ===== src/Layout/Building/Allocated.antt =====
-- What `wire_helpers::allocate` (src/private/layout.rs) does with a null pointer, step by step: an empty
-- struct, words of the same segment, or words of another one behind a landing pad.
use capnproto_rust.Base.{ℕ, ◌+◌, ◌%◌, ◌^◌, ◌≡◌, refl, true, false, none, some, ◌==◌, ◌&&◌}
use capnproto_rust.Base.Outcome.{ok}
use capnproto_rust.Arena.{SegmentBuilder, offset, allocate_in, get_word_offset_to}
use capnproto_rust.Arena.Builder.{Allocator, BuilderArena, get_segment, allocate}
use capnproto_rust.Layout.Pointer.{
  WirePointerKind, struct, WirePointer, is_null, set_kind_and_target, set_far, set_far_ref,
  set_kind_and_target_for_empty_struct,
}
use capnproto_rust.Layout.Memory.{pointer_at}
use capnproto_rust.Layout.Building.{BuildState, ◌≫=◌, replace_segment, write_pointer}
use capnproto_rust.Layout.Building.Objects.{
  is_struct, allocate_far, allocate_words, allocate_object,
}
use capnproto_rust.Layout.Building.Runs.{
  segment_at-ok, segment_allocate-some, segment_allocate-none, arena_allocate-ok,
}

module _ {A : Allocator} {Cap : Type 0} where
  -- The pointer at an address is written.
  abbrev pub put : ℕ → WirePointer → BuildState A Cap → BuildState A Cap
  put reff p s = record s { memory = write_pointer reff p s.memory }

  pub allocate_object-empty :
      (fuel reff segment : ℕ) (s : BuildState A Cap)
      → is_null (pointer_at s.memory reff) ≡ true
      → allocate_object fuel reff segment 0 struct s ≡ (
        ok (record { reff = reff; segment = segment; ptr = reff }),
        put reff (set_kind_and_target_for_empty_struct (pointer_at s.memory reff)) s,
      )
  unfolding allocate_object ◌≫=◌
  allocate_object-empty fuel reff segment s e = rw (allocate_object, e) refl

  pub allocate_object-null :
      (fuel reff segment amount : ℕ) (k : WirePointerKind) (s : BuildState A Cap)
      → is_null (pointer_at s.memory reff) ≡ true
      → (amount == 0 && is_struct k) ≡ false
      → allocate_object fuel reff segment amount k s ≡ allocate_words reff segment amount k s
  unfolding allocate_object ◌≫=◌
  allocate_object-null fuel reff segment amount k s e e' = rw (allocate_object, e, e') refl

  pub allocate_words-near :
      (reff segment amount ptr : ℕ) (k : WirePointerKind) (home home' : SegmentBuilder)
      (s : BuildState A Cap)
      → get_segment A Cap s.arena segment ≡ ok home
      → allocate_in home amount ≡ some (ptr, home')
      → allocate_words reff segment amount k s ≡ (
        ok (record { reff = reff; segment = segment; ptr = ptr }),
        put reff
            (set_kind_and_target reff k ptr (pointer_at s.memory reff))
            (record s { arena = replace_segment s.arena segment home' }),
      )
  unfolding allocate_words ◌≫=◌
  allocate_words-near reff segment amount ptr k home home' s e e' =
      rw (allocate_words, segment_allocate-some segment amount ptr home home' s e e') refl

  pub allocate_words-full :
      (reff segment amount : ℕ) (k : WirePointerKind) (home : SegmentBuilder) (s : BuildState A Cap)
      → get_segment A Cap s.arena segment ≡ ok home
      → allocate_in home amount ≡ none
      → allocate_words reff segment amount k s ≡ allocate_far reff amount k s
  unfolding allocate_words ◌≫=◌
  allocate_words-full reff segment amount k home s e e' =
      rw (allocate_words, segment_allocate-none segment amount home s e e') refl

  -- The states on the way to an object in another segment: a far pointer, then a landing pad.
  abbrev pub far_written : ℕ → ℕ → ℕ → BuildState A Cap → BuildState A Cap
  far_written reff pos id s =
      let s1 = put reff (set_far false pos (pointer_at s.memory reff)) s in
      put reff (set_far_ref id (pointer_at s1.memory reff)) s1

  abbrev pub pad_written : ℕ → WirePointerKind → BuildState A Cap → BuildState A Cap
  pad_written pad k s =
      put pad (set_kind_and_target pad k (offset pad 1) (pointer_at s.memory pad)) s

  pub allocate_far-ok :
      (reff amount id ptr pos : ℕ) (k : WirePointerKind) (arena' : BuilderArena A Cap)
      (home : SegmentBuilder) (s : BuildState A Cap)
      → allocate A Cap s.arena ((amount + 1) % 2 ^ 32) ≡ ok ((id, ptr), arena')
      → get_segment A Cap arena' id ≡ ok home
      → get_word_offset_to home ptr ≡ ok pos
      → allocate_far reff amount k s ≡ (
        ok (record { reff = ptr; segment = id; ptr = offset ptr 1 }),
        pad_written ptr k (far_written reff pos home.id (record s { arena = arena' })),
      )
  unfolding allocate_far ◌≫=◌
  allocate_far-ok reff amount id ptr pos k arena' home s e e' e'' =
      rw
        (
          allocate_far,
          arena_allocate-ok ((amount + 1) % 2 ^ 32) (id, ptr) arena' s e,
          segment_at-ok id home (record s { arena = arena' }) e',
          e'',
        )
        refl
