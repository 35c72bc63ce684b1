-- ===== src/Layout/Building/Returned.antt =====
-- A struct that was initialised, and its getter (src/private/layout.rs): `init_struct` and `get_struct`.
use capnproto_rust.Base.{
  ℕ, ◌+◌, ◌*◌, ◌^◌, ◌<◌, ◌≡◌, refl, ap, ◌∙◌, true, false, length, ◌||◌, ltb, none, some, arith,
}
use capnproto_rust.Base.Outcome.{ok}
use capnproto_rust.Arena.{offset}
use capnproto_rust.Arena.Builder.{Allocator}
use capnproto_rust.Arena.Granted.{IsBuilt}
use capnproto_rust.Arena.Allocation.{Supplies}
use capnproto_rust.Arena.Apart.{IsLaidOut, Separates}
use capnproto_rust.Layout.Pointer.{
  struct, is_null, kind, target, data_size, ptr_count, StructSize, total, set_struct_ref,
}
use capnproto_rust.Layout.Memory.{pointer_at}
use capnproto_rust.Layout.Building.{BuildState, ◌≫=◌}
use capnproto_rust.Layout.Building.Written.{halves}
use capnproto_rust.Layout.Building.Objects.{Allocation, allocate_object, follow_builder_fars}
use capnproto_rust.Layout.Building.Structs.{
  StructBuilder, init_struct_pointer, writable_struct, get_writable_struct_pointer,
}
use capnproto_rust.Layout.Building.Runs.{chain}
use capnproto_rust.Layout.Building.Leads.{Leads, Leads-follows, Keeps-same, with_upper, Leads-upper}
use capnproto_rust.Layout.Building.Finds.{InUse}
use capnproto_rust.Layout.Building.Found.{allocate_object_lem}

abbrev pub made_struct : Allocation → StructSize → StructBuilder
made_struct new size = record {
  segment = some new.segment;
  data_section = new.ptr;
  pointers = offset new.ptr size.data_words;
  data_size = size.data_words * 64;
  pointer_count = size.pointers;
}

-- The upper half of a struct pointer
abbrev pub struct_half : StructSize → ℕ
struct_half size = size.data_words + 65536 * size.pointers

module _ {A : Allocator} {Cap : Type 0} (fuel reff segment : ℕ) (size : StructSize) where
  pub init_struct_pointer-ok :
      (new : Allocation) (s s' : BuildState A Cap)
      → allocate_object fuel reff segment (total size) struct s ≡ (ok new, s')
      → init_struct_pointer fuel reff segment size s
        ≡ (ok (made_struct new size), with_upper new.reff (struct_half size) s')
  unfolding init_struct_pointer ◌≫=◌ set_struct_ref
  init_struct_pointer-ok new s s' e = rw (init_struct_pointer, e) refl

  writable_struct-same :
      (new : Allocation) (s : BuildState A Cap) (o : ℕ)
      → pointer_at s.memory new.reff ≡ halves o (struct_half size)
      → kind (pointer_at s.memory new.reff) ≡ ok struct
      → size.data_words < 65536
      → writable_struct fuel reff segment size new s ≡ (ok (made_struct new size), s)
  unfolding writable_struct ◌≫=◌
  writable_struct-same new s o e k d =
      let ds : data_size (pointer_at s.memory new.reff) ≡ size.data_words =
        ap data_size e ∙ omega (arith, d) in
      let pointers : ptr_count (pointer_at s.memory new.reff) ≡ size.pointers =
        ap ptr_count e ∙ omega (arith, d) in
      let fits : (ltb (data_size (pointer_at s.memory new.reff)) size.data_words
            || ltb (ptr_count (pointer_at s.memory new.reff)) size.pointers)
          ≡ false =
        ground (arith, ds, pointers) in
      rw (writable_struct, k, fits, ds, pointers) refl

  get_writable_struct_pointer-same :
      (new : Allocation) (s : BuildState A Cap)
      → Leads reff segment (total size) struct new s
      → size.data_words < 65536
      → size.pointers < 65536
      → get_writable_struct_pointer fuel reff segment size none
          (with_upper new.reff (struct_half size) s)
        ≡ (ok (made_struct new size), with_upper new.reff (struct_half size) s)
  unfolding get_writable_struct_pointer ◌≫=◌
  get_writable_struct_pointer-same new s l d r =
      let u = struct_half size in
      let small : u < 2 ^ 32 = omega (arith, d, r) in
      let t = with_upper new.reff u s in
      let filled = l.filled u small (λ h. omega (arith, h)) in
      let (p, described) = Leads-upper u l small in
      rw (get_writable_struct_pointer, filled)
        (chain (follow_builder_fars reff (target reff (pointer_at t.memory reff)) segment)
          (writable_struct fuel reff segment size) t t t new (made_struct new size)
          (Leads-follows u t l small (Keeps-same reff new.reff t))
          (writable_struct-same new t (pointer_at s.memory new.reff).offset_and_kind p described d))

module _ {A : Allocator} {Cap : Type 0} where
  -- Initialising a struct of `u16` sizes at a null pointer that is a word in use, in a message whose
  -- segments are valid and lie apart, with an allocator that keeps its promises: it succeeds and gives a
  -- struct of that size. Getting a struct of the same size from the pointer afterwards, through whatever
  -- far pointer was made, gives this struct again and changes nothing.
  pub init_struct-get_struct :
      (Valid : A.State → Type 0) (fuel reff segment : ℕ) (size : StructSize) (s : BuildState A Cap)
      → size.data_words < 65536
      → size.pointers < 65536
      → is_null (pointer_at s.memory reff) ≡ true
      → InUse A Cap s.arena segment reff
      → IsBuilt A Cap s.arena
      → IsLaidOut A Cap s.arena
      → Supplies A Valid (total size + 1) s.arena.allocator
      → Separates A Cap s.arena (total size + 1)
      → Valid s.arena.allocator
      → length s.arena.more_segments + 1 < 2 ^ 32
      → (b : StructBuilder) × (t : BuildState A Cap) × (init_struct_pointer fuel reff segment size s
          ≡ (ok b, t))
        × (b.data_size ≡ size.data_words * 64)
        × (b.pointer_count ≡ size.pointers)
        × (get_writable_struct_pointer fuel reff segment size none t ≡ (ok b, t))
  init_struct-get_struct Valid fuel reff segment size s d r null w b l supplies separates v few =
      let (new, s', e, leads, stands, fresh) =
        allocate_object_lem Valid fuel reff segment (total size) struct s (λ q. absurd cc)
          (omega (arith, d, r)) null w b l supplies separates v few in
      (
        made_struct new size,
        with_upper new.reff (struct_half size) s',
        init_struct_pointer-ok fuel reff segment size new s s' e,
        refl,
        refl,
        get_writable_struct_pointer-same fuel reff segment size new s' leads d r,
      )
