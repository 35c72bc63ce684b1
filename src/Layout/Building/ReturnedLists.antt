-- ===== src/Layout/Building/ReturnedLists.antt =====
-- A list that was initialised, and its getter (src/private/layout.rs): `init_list` and `get_list`.
use capnproto_rust.Base.{
  ℕ, ◌+◌, ◌*◌, ◌^◌, ◌<◌, ◌≡◌, refl, ap, true, false, length, ltb, none, some, arith, lt→ltb,
}
use capnproto_rust.Base.Outcome.{ok}
use capnproto_rust.Arena.Builder.{Allocator}
use capnproto_rust.Arena.Granted.{IsBuilt}
use capnproto_rust.Arena.Allocation.{Supplies}
use capnproto_rust.Arena.Apart.{IsLaidOut, Separates}
use capnproto_rust.Layout.Pointer.{
  ElementSize, size_code, list, WirePointer, is_null, target, set_list_ref, data_bits_per_element,
  pointers_per_element, round_bits_up_to_words,
}
use capnproto_rust.Layout.Fields.{size_of_bits, size_code_lt}
use capnproto_rust.Layout.Memory.{pointer_at}
use capnproto_rust.Layout.Reading.ListBounds.{mul_small, step_small, bits_rounded}
use capnproto_rust.Layout.Building.{BuildState, ◌≫=◌}
use capnproto_rust.Layout.Building.Written.{halves}
use capnproto_rust.Layout.Building.Objects.{Allocation, allocate_object, follow_builder_fars}
use capnproto_rust.Layout.Building.ListPointers.{
  ListBuilder, is_inline_composite, listed, existing_list, writable_plain, writable_list,
  init_list_pointer, get_writable_list_pointer,
}
use capnproto_rust.Layout.Building.Runs.{chain, try_change_pointer-ok}
use capnproto_rust.Layout.Building.Leads.{Leads, Leads-follows, Keeps-same, with_upper, Leads-upper}
use capnproto_rust.Layout.Building.Finds.{InUse}
use capnproto_rust.Layout.Building.Found.{allocate_object_lem}

-- The bits from one element to the next
abbrev pub step_of : ElementSize → ℕ
step_of size = data_bits_per_element size + pointers_per_element size * 64

abbrev pub made_list : Allocation → ℕ → ElementSize → ListBuilder
made_list new count size = record {
  segment = some new.segment;
  ptr = new.ptr;
  element_count = count;
  step = step_of size;
  struct_data_size = data_bits_per_element size;
  struct_pointer_count = pointers_per_element size;
}

-- The upper half of a list pointer
abbrev pub list_half : ℕ → ElementSize → ℕ
list_half count size = count * 8 + size_code size

ltb_self : (n : ℕ) → ltb n n ≡ false
ltb_self n = ground arith

pub set_list_ref-half :
    (count : ℕ) (size : ElementSize) (p : WirePointer)
    → count < 2 ^ 29
    → set_list_ref size count p ≡ ok (halves p.offset_and_kind (list_half count size))
unfolding set_list_ref
set_list_ref-half count size p small = let e = lt→ltb count (2 ^ 29) small in rw e refl

module _ {A : Allocator} {Cap : Type 0} (fuel reff segment count : ℕ) (size : ElementSize)
    (plain : is_inline_composite size ≡ false) (small : count < 2 ^ 29) where
  init_list_pointer-ok :
      (new : Allocation) (s s' : BuildState A Cap)
      → allocate_object fuel reff segment (round_bits_up_to_words (count * step_of size)) list s
        ≡ (ok new, s')
      → init_list_pointer fuel reff segment count size s
        ≡ (ok (made_list new count size), with_upper new.reff (list_half count size) s')
  unfolding init_list_pointer ◌≫=◌
  init_list_pointer-ok new s s' e =
      rw
        (
          init_list_pointer,
          plain,
          e,
          try_change_pointer-ok new.reff (set_list_ref size count)
              (halves (pointer_at s'.memory new.reff).offset_and_kind (list_half count size)) s'
              (set_list_ref-half count size (pointer_at s'.memory new.reff) small),
        )
        refl

  writable_list-same :
      (new : Allocation) (s : BuildState A Cap) (o : ℕ)
      → pointer_at s.memory new.reff ≡ halves o (list_half count size)
      → writable_list size new s ≡ (ok (made_list new count size), s)
  unfolding writable_list writable_plain ◌≫=◌
  writable_list-same new s o e =
      let (is_size, is_count) =
        size_of_bits (pointer_at s.memory new.reff) size count
          (ap (λ (p : WirePointer). p.upper32bits) e) in
      rw
        (
          writable_list,
          is_size,
          plain,
          is_count,
          ltb_self (data_bits_per_element size),
          ltb_self (pointers_per_element size),
        )
        refl

  get_writable_list_pointer-same :
      (new : Allocation) (s : BuildState A Cap)
      → Leads reff segment (round_bits_up_to_words (count * step_of size)) list new s
      → get_writable_list_pointer reff segment size none
          (with_upper new.reff (list_half count size) s)
        ≡ (ok (made_list new count size), with_upper new.reff (list_half count size) s)
  unfolding get_writable_list_pointer existing_list listed ◌≫=◌
  get_writable_list_pointer-same new s l =
      let u = list_half count size in
      let u_small : u < 2 ^ 32 = omega (arith, small, size_code_lt size) in
      let t = with_upper new.reff u s in
      let filled = l.filled u u_small (λ h. omega arith) in
      let (p, described) = Leads-upper u l u_small in
      rw (get_writable_list_pointer, plain, existing_list, filled)
        (chain (follow_builder_fars reff (target reff (pointer_at t.memory reff)) segment)
          (listed (writable_list size)) t t t new (made_list new count size)
          (Leads-follows u t l u_small (Keeps-same reff new.reff t))
          (rw (listed, described)
            (writable_list-same new t (pointer_at s.memory new.reff).offset_and_kind p)))

module _ {A : Allocator} {Cap : Type 0} where
  -- Initialising a list of fewer than 2 ^ 29 elements that are not structs, at a null pointer that is a
  -- word in use, in a message whose segments are valid and lie apart, with an allocator that keeps its
  -- promises: it succeeds and gives a list of that length, whose step is the size of an element. Getting
  -- a list of the same element size from the pointer afterwards, through whatever far pointer was made,
  -- gives this list again and changes nothing.
  pub init_list-get_list :
      (Valid : A.State → Type 0) (fuel reff segment count : ℕ) (size : ElementSize)
      (s : BuildState A Cap)
      → is_inline_composite size ≡ false
      → count < 2 ^ 29
      → is_null (pointer_at s.memory reff) ≡ true
      → InUse A Cap s.arena segment reff
      → IsBuilt A Cap s.arena
      → IsLaidOut A Cap s.arena
      → Supplies A Valid (round_bits_up_to_words (count * step_of size) + 1) s.arena.allocator
      → Separates A Cap s.arena (round_bits_up_to_words (count * step_of size) + 1)
      → Valid s.arena.allocator
      → length s.arena.more_segments + 1 < 2 ^ 32
      → (b : ListBuilder) × (t : BuildState A Cap) × (init_list_pointer fuel reff segment count size
            s
          ≡ (ok b, t))
        × (b.element_count ≡ count)
        × (b.step ≡ step_of size)
        × (get_writable_list_pointer reff segment size none t ≡ (ok b, t))
  init_list-get_list Valid fuel reff segment count size s plain small null w b l supplies separates
        v few =
      let (n_small, covered) =
        bits_rounded (count * step_of size)
          (mul_small count (step_of size) small (step_small size)) in
      let (new, s', e, leads, stands, fresh) =
        allocate_object_lem Valid fuel reff segment (round_bits_up_to_words (count * step_of size))
          list s (λ q. absurd cc)
          (omega (arith, mul_small count (step_of size) small (step_small size))) null w b l
          supplies separates v few in
      (
        made_list new count size,
        with_upper new.reff (list_half count size) s',
        init_list_pointer-ok fuel reff segment count size plain small new s s' e,
        refl,
        refl,
        get_writable_list_pointer-same fuel reff segment count size plain small new s' leads,
      )
