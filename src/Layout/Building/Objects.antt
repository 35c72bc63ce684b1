-- ===== src/Layout/Building/Objects.antt =====
-- Objects of a message that is built: how they are zeroed, allocated, found and moved
-- (src/private/layout.rs). Zeroing goes down the object, on fuel: the code recurses without a bound.
use capnproto_rust.Base.{
  ℕ, zero, suc, ◌+◌, ◌*◌, ◌%◌, ◌^◌, Bool, true, false, none, some, ◌==◌, ◌&&◌, if◌then◌else◌,
}
use capnproto_rust.Base.Outcome.{Outcome, ok, err, fault, panicked, no_fuel, assert}
use capnproto_rust.Arena.{SegmentBuilder, offset, get_word_offset_to, get_ptr_unchecked}
use capnproto_rust.Arena.Builder.{Allocator, get_segment}
use capnproto_rust.Layout.Pointer.{
  ElementSize, void, pointer, inline_composite, WirePointerKind, struct, list, far, other,
  WirePointer, kind, is_null, target, data_size, ptr_count, word_size, element_size, element_count,
  segment_id, set_far, set_far_ref, set_kind_and_target, set_kind_and_target_for_empty_struct,
  inline_composite_list_element_count, far_position_in_segment, is_double_far,
  data_bits_per_element, round_bits_up_to_words,
}
use capnproto_rust.Layout.Building.{
  Build, ◌≫=◌, ◌≫◌, from_outcome, done, crash, write, read_pointer, change_pointer, segment_at,
  arena_get_segment, segment_allocate, arena_allocate, zero_words, write_pointer,
}

abbrev pub is_struct : WirePointerKind → Bool
is_struct struct = true
is_struct _ = false

-- `unwrap` of a `Result`
abbrev pub unwrap : {T : Type 0} → Outcome T → Outcome T
unwrap (ok t) = ok t
unwrap (err e) = fault panicked
unwrap (fault x) = fault x

module _ {A : Allocator} {Cap : Type 0} where
  module _ (recur : ℕ → ℕ → Build A Cap (Unit {0})) where
    -- The loop over `count` pointers from an address on
    unfoldable pub zero_pointers : ℕ → ℕ → ℕ → Build A Cap (Unit {0})
    zero_pointers segment zero pos = done tt
    zero_pointers segment (suc count) pos =
        recur segment pos ≫ zero_pointers segment count (offset pos 1)

    -- The loops over the structs of an inline composite list
    unfoldable pub zero_elements :
        ℕ → (data_size pointer_count : ℕ) → ℕ → ℕ → Build A Cap (Unit {0})
    zero_elements segment data_size pointer_count zero pos = done tt
    zero_elements segment data_size pointer_count (suc count) pos =
        let pos' = offset pos data_size in
        zero_pointers segment pointer_count pos'
        ≫ zero_elements segment data_size pointer_count count (offset pos' pointer_count)

    unfoldable pub zero_composite : ℕ → ℕ → Build A Cap (Unit {0})
    zero_composite segment ptr = read_pointer ptr ≫= λ element_tag.
        from_outcome (kind element_tag) ≫= λ k. elim k [
          | struct ↦
              let count = inline_composite_list_element_count element_tag in
              zero_elements segment (data_size element_tag) (ptr_count element_tag) count
                (offset ptr 1)
              ≫ (read_pointer ptr ≫= λ t.
                  write (zero_words ptr ((word_size t * count + 1) % 2 ^ 32)))
          | _ ↦ crash panicked
        ]

    unfoldable pub zero_list : ElementSize → ℕ → ℕ → ℕ → Build A Cap (Unit {0})
    zero_list void segment count ptr = done tt
    zero_list pointer segment count ptr =
        zero_pointers segment count ptr ≫ write (zero_words ptr count)
    zero_list inline_composite segment count ptr = zero_composite segment ptr
    zero_list size segment count ptr =
        write
          (zero_words ptr (round_bits_up_to_words (count * data_bits_per_element size % 2 ^ 32)))

    unfoldable pub zero_object_helper : ℕ → ℕ → ℕ → Build A Cap (Unit {0})
    zero_object_helper segment tag ptr = read_pointer tag ≫= λ p. from_outcome (kind p) ≫= λ k.
        elim k [
          | other ↦ crash panicked
          | struct ↦
              zero_pointers segment (ptr_count p) (offset ptr (data_size p))
              ≫ (read_pointer tag ≫= λ q. write (zero_words ptr (word_size q)))
          | list ↦
              from_outcome (element_size p) ≫= λ size. zero_list size segment (element_count p) ptr
          | far ↦ crash panicked
        ]

    unfoldable pub zero_far : WirePointer → Build A Cap (Unit {0})
    zero_far p = (λ s. (unwrap (get_segment A Cap s.arena (segment_id p)), s)) ≫= λ segment.
        let pad = get_ptr_unchecked segment (far_position_in_segment p) in
        if is_double_far p
        then (read_pointer pad ≫= λ q.
            (λ s. (unwrap (get_segment A Cap s.arena (segment_id q)), s)) ≫= λ segment'.
            zero_object_helper (segment_id q) (offset pad 1)
              (get_ptr_unchecked segment' (far_position_in_segment q))
            ≫ write (zero_words pad 2))
        else recur (segment_id p) pad ≫ write (zero_words pad 1)

  unfoldable pub zero_object : ℕ → ℕ → ℕ → Build A Cap (Unit {0})
  zero_object zero segment reff = crash no_fuel
  zero_object (suc fuel) segment reff = read_pointer reff ≫= λ p. from_outcome (kind p) ≫= λ k.
      elim k [
        | far ↦ zero_far (zero_object fuel) p
        | _ ↦ zero_object_helper (zero_object fuel) segment reff (target reff p)
      ]

-- What `allocate` returns: the new `reff`, the new `segment`, and the words.
pub record Allocation : Type 0 where
  pub reff : ℕ
  pub segment : ℕ
  pub ptr : ℕ

module _ {A : Allocator} {Cap : Type 0} where
  -- A full segment: a landing pad and the object go to another one.
  unfoldable pub allocate_far : ℕ → ℕ → WirePointerKind → Build A Cap Allocation
  allocate_far reff amount k = arena_allocate ((amount + 1) % 2 ^ 32) ≫= λ granted.
      let (id, ptr) = granted in
      let ptr1 = offset ptr 1 in
      segment_at id ≫= λ segment. from_outcome (get_word_offset_to segment ptr) ≫= λ pos.
      change_pointer reff (set_far false pos)
      ≫ change_pointer reff (set_far_ref segment.id)
      ≫ change_pointer ptr (set_kind_and_target ptr k ptr1)
      ≫ done (record { reff = ptr; segment = id; ptr = ptr1 })

  unfoldable pub allocate_words : ℕ → ℕ → ℕ → WirePointerKind → Build A Cap Allocation
  allocate_words reff segment amount k = segment_allocate segment amount ≫= λ granted.
      elim granted [
        | none ↦ allocate_far reff amount k
        | some ptr ↦
            change_pointer reff (set_kind_and_target reff k ptr)
            ≫ done (record { reff = reff; segment = segment; ptr = ptr })
      ]

  -- `wire_helpers::allocate`
  unfoldable pub allocate_object :
      ℕ → (reff segment amount : ℕ) → WirePointerKind → Build A Cap Allocation
  allocate_object fuel reff segment amount k = read_pointer reff ≫= λ p.
      (if is_null p then done tt else zero_object fuel segment reff)
      ≫ (if amount == 0 && is_struct k
          then change_pointer reff set_kind_and_target_for_empty_struct
            ≫ done (record { reff = reff; segment = segment; ptr = reff })
          else allocate_words reff segment amount k)

  -- From the landing pad of a far pointer `p`, in the segment `s`
  unfoldable pub follow_builder_pad : WirePointer → SegmentBuilder → Build A Cap Allocation
  follow_builder_pad p s =
      let pad = get_ptr_unchecked s (far_position_in_segment p) in
      read_pointer pad ≫= λ q.
      if is_double_far p
      then (arena_get_segment (segment_id q) ≫= λ s'. done (record {
        reff = offset pad 1;
        segment = segment_id q;
        ptr = get_ptr_unchecked s' (far_position_in_segment q);
      }))
      else done (record { reff = pad; segment = segment_id p; ptr = target pad q })

  unfoldable pub follow_builder_far : WirePointer → Build A Cap Allocation
  follow_builder_far p = arena_get_segment (segment_id p) ≫= follow_builder_pad p

  unfoldable pub follow_builder_fars : ℕ → ℕ → ℕ → Build A Cap Allocation
  follow_builder_fars reff ref_target segment = read_pointer reff ≫= λ p.
      from_outcome (kind p) ≫= λ k. elim k [
        | far ↦ follow_builder_far p
        | _ ↦ done (record { reff = reff; segment = segment; ptr = ref_target })
      ]

  unfoldable pub zero_pointer_and_fars : ℕ → ℕ → Build A Cap (Unit {0})
  zero_pointer_and_fars segment reff = read_pointer reff ≫= λ p. from_outcome (kind p) ≫= λ k.
      (elim k [
        | far ↦ arena_get_segment (segment_id p) ≫= λ s. write (
            zero_words (get_ptr_unchecked s (far_position_in_segment p))
              (if is_double_far p then 2 else 1))
        | _ ↦ done tt
      ])
      ≫ write (zero_words reff 1)

  unfoldable pub transfer_pointer_split :
      (dst_segment dst src_segment src_tag src_ptr : ℕ) → Build A Cap (Unit {0})
  transfer_pointer_split dst_segment dst src_segment src_tag src_ptr = read_pointer src_tag ≫= λ t.
      from_outcome (kind t) ≫= λ k.
      if dst_segment == src_segment
      then change_pointer dst (set_kind_and_target dst k src_ptr)
        ≫ change_pointer dst (λ p. record p { upper32bits = t.upper32bits })
      else segment_allocate src_segment 1 ≫= λ granted. elim granted [
        | none ↦ crash panicked
        | some pad ↦
            change_pointer pad (set_kind_and_target pad k src_ptr)
            ≫ change_pointer pad (λ p. record p { upper32bits = t.upper32bits })
            ≫ (segment_at src_segment ≫= λ s. from_outcome (get_word_offset_to s pad) ≫= λ pos.
                change_pointer dst (set_far false pos) ≫ change_pointer dst (set_far_ref s.id))
      ]

  unfoldable pub transfer_pointer : (dst_segment dst src_segment src : ℕ) → Build A Cap (Unit {0})
  transfer_pointer dst_segment dst src_segment src = read_pointer dst ≫= λ d.
      from_outcome (assert (is_null d))
      ≫ (read_pointer src ≫= λ p.
          if is_null p
          then write (zero_words dst 1)
          else from_outcome (kind p) ≫= λ k. elim k [
            | far ↦ write (write_pointer dst p)
            | _ ↦ transfer_pointer_split dst_segment dst src_segment src (target src p)
          ])
