-- ===== src/Layout/Building/ReturnedData.antt =====
-- Data that was set, and its getter (src/private/layout.rs): `set_data` and `get_data`.
use capnproto_rust.Base.{
  ℕ, ◌+◌, ◌*◌, ◌%◌, ◌^◌, ◌≤◌, ◌<◌, ◌≡◌, ◌⊎◌, inl, inr, refl, ap, ◌∙◌, true, false, List, [], ◌∷◌,
  length, All, arith,
}
use mathlib.Core.Path.{ap₂}
use capnproto_rust.Base.Outcome.{ok}
use capnproto_rust.Arena.Builder.{Allocator}
use capnproto_rust.Arena.Granted.{IsBuilt}
use capnproto_rust.Arena.Allocation.{Supplies}
use capnproto_rust.Arena.Apart.{IsLaidOut, Separates}
use capnproto_rust.Layout.Pointer.{
  byte, list, WirePointer, is_null, kind, target, set_list_ref, round_bytes_up_to_words,
}
use capnproto_rust.Layout.Fields.{size_of_bits}
use capnproto_rust.Layout.Memory.{Memory, pointer_at}
use capnproto_rust.Layout.Texts.{Slice, slice_bytes}
use capnproto_rust.Layout.Building.{BuildState, ◌≫=◌, byte_of, write_number, write_bytes}
use capnproto_rust.Layout.Building.Written.{
  Outside, halves, pointer_at-same, write_number-at, write_number-off,
}
use capnproto_rust.Layout.Building.Objects.{Allocation, allocate_object, follow_builder_fars}
use capnproto_rust.Layout.Building.Blobs.{
  init_bytes, init_data_pointer, set_data_pointer, listed_bytes, writable_bytes,
  get_writable_data_pointer,
}
use capnproto_rust.Layout.Building.Runs.{chain, try_change_pointer-ok}
use capnproto_rust.Layout.Building.Leads.{Leads, Leads-follows, Keeps, with_upper, Leads-upper}
use capnproto_rust.Layout.Building.Finds.{InUse}
use capnproto_rust.Layout.Building.Found.{allocate_object_lem}
use capnproto_rust.Layout.Building.ReturnedLists.{list_half, set_list_ref-half}

pub write_bytes-off :
    (bs : List ℕ) (start a : ℕ) (mem : Memory)
    → Outside start (length bs) a
    → write_bytes start bs mem a ≡ mem a
unfolding write_bytes
write_bytes-off [] start a mem h = refl
write_bytes-off (b ∷ bs) start a mem (inl h) =
    write_bytes-off bs (start + 1) a (write_number start 1 b mem) (inl (omega (arith, h)))
    ∙ write_number-off start 1 b mem a (inl h)
write_bytes-off (b ∷ bs) start a mem (inr h) =
    write_bytes-off bs (start + 1) a (write_number start 1 b mem) (inr (omega (arith, h)))
    ∙ write_number-off start 1 b mem a (inr (omega (arith, h)))

-- Bytes that are written are read back.
pub slice_bytes-write_bytes :
    (bs : List ℕ) (start : ℕ) (mem : Memory)
    → All (λ b. b < 256) bs
    → slice_bytes (write_bytes start bs mem) start (length bs) ≡ bs
unfolding slice_bytes write_bytes byte_of
slice_bytes-write_bytes [] start mem h = refl
slice_bytes-write_bytes (b ∷ bs) start mem (l, h) =
    let mem' = write_number start 1 b mem in
    let first : write_bytes (start + 1) bs mem' start ≡ b =
      write_bytes-off bs (start + 1) start mem' (inl (omega arith))
      ∙ write_number-at start 1 b mem start 0 (omega arith) (omega arith)
      ∙ omega (arith, l) in
    ap₂ (λ x xs. x ∷ xs) first (slice_bytes-write_bytes bs (start + 1) mem' h)

-- A pointer apart from the bytes is as it was.
pub kept_pointer :
    (bs : List ℕ) (start room q : ℕ) (mem : Memory)
    → length bs ≤ room
    → (q + 8 ≤ start) ⊎ (start + room ≤ q)
    → pointer_at (write_bytes start bs mem) q ≡ pointer_at mem q
kept_pointer bs start room q mem l (inl h) =
    pointer_at-same (write_bytes start bs mem) mem q
      (λ i u. write_bytes-off bs start (q + i) mem (inl (omega (arith, h, u))))
kept_pointer bs start room q mem l (inr h) =
    pointer_at-same (write_bytes start bs mem) mem q
      (λ i u. write_bytes-off bs start (q + i) mem (inr (omega (arith, h, l))))

module _ {A : Allocator} {Cap : Type 0} where
  -- A list of bytes whose words are allocated
  pub init_bytes-ok :
      (fuel reff segment n : ℕ) (new : Allocation) (s s' : BuildState A Cap)
      → n < 2 ^ 29
      → allocate_object fuel reff segment (round_bytes_up_to_words n) list s ≡ (ok new, s')
      → init_bytes fuel reff segment n s ≡ (ok new, with_upper new.reff (list_half n byte) s')
  unfolding init_bytes ◌≫=◌
  init_bytes-ok fuel reff segment n new s s' small e =
      rw
        (
          init_bytes,
          e,
          try_change_pointer-ok new.reff (set_list_ref byte n)
              (halves (pointer_at s'.memory new.reff).offset_and_kind (list_half n byte)) s'
              (set_list_ref-half n byte (pointer_at s'.memory new.reff) small),
        )
        refl

module _ {A : Allocator} {Cap : Type 0} (fuel reff segment : ℕ) (value : List ℕ)
    (small : length value < 2 ^ 29) where
  abbrev pub written : Allocation → BuildState A Cap → BuildState A Cap
  written new s =
      let t = with_upper new.reff (list_half (length value) byte) s in
      record t { memory = write_bytes new.ptr value t.memory }

  pub set_data_pointer-ok :
      (new : Allocation) (s s' : BuildState A Cap)
      → allocate_object fuel reff segment (round_bytes_up_to_words (length value)) list s
        ≡ (ok new, s')
      → set_data_pointer fuel reff segment value s ≡ (
        ok (record {
          segment = new.segment;
          value = record { ptr = new.ptr; size = length value };
        }),
        written new s',
      )
  unfolding set_data_pointer init_data_pointer ◌≫=◌
  set_data_pointer-ok new s s' e =
      let n : length value % 2 ^ 32 ≡ length value = omega (arith, small) in
      rw
        (
          set_data_pointer,
          n,
          init_data_pointer,
          init_bytes-ok fuel reff segment (length value) new s s' small e,
        )
        refl

  listed_bytes-same :
      (new : Allocation) (t : BuildState A Cap) (o : ℕ)
      → pointer_at t.memory new.reff ≡ halves o (list_half (length value) byte)
      → kind (pointer_at t.memory new.reff) ≡ ok list
      → listed_bytes new t ≡ (ok (record { ptr = new.ptr; size = length value }), t)
  unfolding listed_bytes ◌≫=◌
  listed_bytes-same new t o e k =
      let (is_size, is_count) =
        size_of_bits (pointer_at t.memory new.reff) byte (length value)
          (ap (λ (p : WirePointer). p.upper32bits) e) in
      rw (listed_bytes, k, is_size, is_count) refl

  -- The bytes are written behind both pointers.
  pub written-Keeps :
      (new : Allocation) (s : BuildState A Cap)
      → Leads reff segment (round_bytes_up_to_words (length value)) list new s
      → Keeps reff new.reff (with_upper new.reff (list_half (length value) byte) s) (written new s)
  written-Keeps new s l =
      let t0 = with_upper new.reff (list_half (length value) byte) s in
      let room : length value ≤ 8 * round_bytes_up_to_words (length value) = omega (arith, small) in
      record {
        arena = refl;
        first =
            kept_pointer value new.ptr (8 * round_bytes_up_to_words (length value)) reff t0.memory
              room l.from_reff;
        second =
            kept_pointer value new.ptr (8 * round_bytes_up_to_words (length value)) new.reff
              t0.memory room l.from_new;
      }

  get_writable_data_pointer-same :
      (new : Allocation) (s : BuildState A Cap)
      → Leads reff segment (round_bytes_up_to_words (length value)) list new s
      → get_writable_data_pointer fuel reff segment 0 0 (written new s)
        ≡ (ok (record { ptr = new.ptr; size = length value }), written new s)
  unfolding get_writable_data_pointer writable_bytes ◌≫=◌
  get_writable_data_pointer-same new s l =
      let u = list_half (length value) byte in
      let u_small : u < 2 ^ 32 = omega (arith, small) in
      let t = written new s in
      let kept = written-Keeps new s l in
      let filled : is_null (pointer_at t.memory reff) ≡ false =
        ap is_null kept.first ∙ l.filled u u_small (λ h. omega arith) in
      let (p, described) = Leads-upper u l u_small in
      rw (get_writable_data_pointer, filled, writable_bytes)
        (chain (follow_builder_fars reff (target reff (pointer_at t.memory reff)) segment)
          listed_bytes t t t new (record { ptr = new.ptr; size = length value })
          (Leads-follows u t l u_small kept)
          (listed_bytes-same new t (pointer_at s.memory new.reff).offset_and_kind (kept.second ∙ p)
            (ap kind kept.second ∙ described)))

module _ {A : Allocator} {Cap : Type 0} where
  -- Setting fewer than 2 ^ 29 bytes at a null pointer that is a word in use, in a message whose segments
  -- are valid and lie apart, with an allocator that keeps its promises: it succeeds. Getting the data from
  -- the pointer afterwards, through whatever far pointer was made, gives the same slice and changes
  -- nothing, and the slice holds these bytes.
  pub set_data-get_data :
      (Valid : A.State → Type 0) (fuel reff segment : ℕ) (value : List ℕ) (s : BuildState A Cap)
      → length value < 2 ^ 29
      → All (λ b. b < 256) value
      → is_null (pointer_at s.memory reff) ≡ true
      → InUse A Cap s.arena segment reff
      → IsBuilt A Cap s.arena
      → IsLaidOut A Cap s.arena
      → Supplies A Valid (round_bytes_up_to_words (length value) + 1) s.arena.allocator
      → Separates A Cap s.arena (round_bytes_up_to_words (length value) + 1)
      → Valid s.arena.allocator
      → length s.arena.more_segments + 1 < 2 ^ 32
      → (home : ℕ) × (b : Slice) × (t : BuildState A Cap) × (set_data_pointer fuel reff segment
            value s
          ≡ (ok (record { segment = home; value = b }), t))
        × (get_writable_data_pointer fuel reff segment 0 0 t ≡ (ok b, t))
        × (slice_bytes t.memory b.ptr b.size ≡ value)
  set_data-get_data Valid fuel reff segment value s small bytes null w b l supplies separates v
        few =
      let (new, s', e, leads, stands, fresh) =
        allocate_object_lem Valid fuel reff segment (round_bytes_up_to_words (length value)) list s
          (λ q. absurd cc) (omega (arith, small)) null w b l supplies separates v few in
      (
        new.segment,
        record { ptr = new.ptr; size = length value },
        written fuel reff segment value small new s',
        set_data_pointer-ok fuel reff segment value small new s s' e,
        get_writable_data_pointer-same fuel reff segment value small new s' leads,
        slice_bytes-write_bytes value new.ptr
            (with_upper new.reff (list_half (length value) byte) s').memory bytes,
      )
