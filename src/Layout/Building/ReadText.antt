-- ===== src/Layout/Building/ReadText.antt =====
-- Text that was set, and the reader of the segments that the message is written out as
-- (src/private/layout.rs, src/text.rs): `set_text_pointer` and `read_text_pointer`. The code never writes
-- the terminator: it is a byte of the words that the arena hands out.
use capnproto_rust.Base.{
  ℕ, ◌+◌, ◌-◌, ◌*◌, ◌%◌, ◌^◌, ◌≤◌, ◌<◌, ◌≡◌, inl, inr, refl, ap, ◌∙◌, Bool, true, false, some, List,
  [], ◌∷◌, length, All, ltb, ◌==◌, arith,
}
use capnproto_rust.Base.Outcome.{ok}
use capnproto_rust.Arena.{SegmentReader}
use capnproto_rust.Arena.Builder.{Allocator}
use capnproto_rust.Arena.Granted.{IsBuilt}
use capnproto_rust.Arena.Allocation.{Supplies}
use capnproto_rust.Arena.Apart.{IsLaidOut, Separates}
use capnproto_rust.Arena.Reader.{ReaderArena, new_arena}
use capnproto_rust.Layout.Pointer.{
  WirePointer, list, byte, is_null, kind, target, round_bytes_up_to_words,
}
use capnproto_rust.Layout.Memory.{Memory, pointer_at, ReadState, ◌⟫=◌}
use capnproto_rust.Layout.Reading.{Followed, follow_fars}
use capnproto_rust.Layout.Texts.{
  Slice, slice_bytes, byte_list, terminated_text, new_text, read_text_pointer,
}
use capnproto_rust.Layout.Building.{BuildState, ◌≫=◌, write_number, write_bytes}
use capnproto_rust.Layout.Building.Written.{Outside, halves, write_pointer-off}
use capnproto_rust.Layout.Building.Objects.{Allocation, allocate_object}
use capnproto_rust.Layout.Building.Blobs.{
  TextBuilder, SegmentAnd, set_byte, set_bytes, push_str, init_text_pointer, set_text_pointer,
}
use capnproto_rust.Layout.Building.Stands.{outputs}
use capnproto_rust.Layout.Building.Unused.{IsZeroed}
use capnproto_rust.Layout.Building.Readable.{
  whole, whole-granted, ReaderFinds-way, reader_of_outputs,
}
use capnproto_rust.Layout.Building.Leads.{Leads, Keeps, with_upper, Leads-upper}
use capnproto_rust.Layout.Building.Finds.{InUse}
use capnproto_rust.Layout.Building.Found.{allocate_object_lem}
use capnproto_rust.Layout.Building.ReturnedLists.{list_half}
use capnproto_rust.Layout.Building.ReturnedData.{
  init_bytes-ok, kept_pointer, write_bytes-off, slice_bytes-write_bytes,
}
use capnproto_rust.Layout.Building.ReadData.{byte_list-ok}

abbrev whole_text : List ℕ → Allocation → SegmentAnd TextBuilder
whole_text value new = record {
  segment = new.segment;
  value = record { ptr = new.ptr; size = length value; pos = length value };
}

module _ {A : Allocator} {Cap : Type 0} where
  -- The loop of `push_str` writes the bytes one after the other, where the text has room for them.
  set_bytes_lem :
      (t : TextBuilder) (i : ℕ) (bs : List ℕ) (s : BuildState A Cap)
      → i + length bs ≤ t.size
      → set_bytes t i bs s ≡ (ok tt, record s { memory = write_bytes (t.ptr + i) bs s.memory })
  unfolding set_bytes set_byte ◌≫=◌ write_bytes
  set_bytes_lem t i [] s h = refl
  set_bytes_lem t i (b ∷ bs) s h =
      let w : ltb i t.size ≡ true = ground (arith, h) in
      let mem = write_number (t.ptr + i) 1 b s.memory in
      rw w (
        set_bytes_lem t (i + 1) bs (record s { memory = mem }) (omega (arith, h))
        ∙ ap (λ p. (ok tt, record s { memory = write_bytes p bs mem })) (omega arith))

  module _ (fuel reff segment : ℕ) (value : List ℕ) (small : length value + 1 < 2 ^ 29) where
    abbrev text_written : Allocation → BuildState A Cap → BuildState A Cap
    text_written new s =
        let t = with_upper new.reff (list_half (length value + 1) byte) s in
        record t { memory = write_bytes new.ptr value t.memory }

    set_text_pointer-ok :
        (new : Allocation) (s s' : BuildState A Cap)
        → allocate_object fuel reff segment (round_bytes_up_to_words (length value + 1)) list s
          ≡ (ok new, s')
        → set_text_pointer fuel reff segment value s
          ≡ (ok (whole_text value new), text_written new s')
    unfolding set_text_pointer init_text_pointer push_str ◌≫=◌
    set_text_pointer-ok new s s' e =
        let n : length value % 2 ^ 32 ≡ length value = omega (arith, small) in
        let n' : (length value + 1) % 2 ^ 32 ≡ length value + 1 = omega (arith, small) in
        let t = with_upper new.reff (list_half (length value + 1) byte) s' in
        let text : TextBuilder = record { ptr = new.ptr; size = length value; pos = 0 } in
        let at : new.ptr + 0 ≡ new.ptr = omega arith in
        let end : 0 + length value ≡ length value = omega arith in
        rw
          (
            set_text_pointer,
            n,
            init_text_pointer,
            n',
            init_bytes-ok fuel reff segment (length value + 1) new s s' small e,
            push_str,
            set_bytes_lem text 0 value t (omega arith),
          )
          (ap
              (λ k. (
                ok (record {
                  segment = new.segment;
                  value = record { ptr = new.ptr; size = length value; pos = k };
                }),
                record t { memory = write_bytes (new.ptr + 0) value t.memory },
              ))
              end
            ∙ ap
                (λ p.
                  (ok (whole_text value new), record t { memory = write_bytes p value t.memory }))
                at)

    text_written-Keeps :
        (new : Allocation) (s : BuildState A Cap)
        → Leads reff segment (round_bytes_up_to_words (length value + 1)) list new s
        → Keeps reff new.reff
            (with_upper new.reff (list_half (length value + 1) byte) s)
            (text_written new s)
    text_written-Keeps new s l =
        let t0 = with_upper new.reff (list_half (length value + 1) byte) s in
        let words = round_bytes_up_to_words (length value + 1) in
        let room : length value ≤ 8 * words = omega (arith, small) in
        record {
          arena = refl;
          first = kept_pointer value new.ptr (8 * words) reff t0.memory room l.from_reff;
          second = kept_pointer value new.ptr (8 * words) new.reff t0.memory room l.from_new;
        }

    -- The byte behind the text is 0.
    terminated :
        (new : Allocation) (s : BuildState A Cap)
        → Leads reff segment (round_bytes_up_to_words (length value + 1)) list new s
        → s.memory (new.ptr + length value) ≡ 0
        → (text_written new s).memory (new.ptr + (length value + 1 - 1)) ≡ 0
    terminated new s l zero_there =
        let t0 = with_upper new.reff (list_half (length value + 1) byte) s in
        let at : new.ptr + (length value + 1 - 1) ≡ new.ptr + length value = omega arith in
        let o = (pointer_at s.memory new.reff).offset_and_kind in
        let off : Outside new.reff 8 (new.ptr + length value) = elim l.from_new [
          | inl before ↦ inr (omega (arith, before))
          | inr behind ↦ inl (omega (arith, behind, small))
        ] in
        ap (text_written new s).memory at
        ∙ write_bytes-off value new.ptr (new.ptr + length value) t0.memory (inr (omega arith))
        ∙ write_pointer-off new.reff (halves o (list_half (length value + 1) byte)) s.memory
            (new.ptr + length value) off
        ∙ zero_there

module _ {Cap : Type 0} (from_utf8 : List ℕ → Bool) (mem : Memory) where
  terminated_text-ok :
      (ptr n : ℕ) (r : ReadState Cap)
      → mem (ptr + (n + 1 - 1)) ≡ 0
      → from_utf8 (slice_bytes mem ptr n) ≡ true
      → terminated_text from_utf8 mem ptr (n + 1) r ≡ (ok (record { ptr = ptr; size = n }), r)
  unfolding terminated_text new_text
  terminated_text-ok ptr n r z u =
      let e : (n + 1 == 0) ≡ false = ground arith in
      let d : n + 1 - 1 ≡ n = omega arith in
      let z' : mem (ptr + n) ≡ 0 = ap (λ k. mem (ptr + k)) (omega arith) ∙ z in
      rw (terminated_text, e, d, z', new_text, u) refl

  read_text_pointer-ok :
      (reff n : ℕ) (start : SegmentReader) (r r' after : ReadState Cap) (f : Followed)
      (text : Slice)
      → is_null (pointer_at mem reff) ≡ false
      → follow_fars mem reff (target reff (pointer_at mem reff)) (some start) r ≡ (ok f, r')
      → byte_list mem f r' ≡ (ok n, after)
      → terminated_text from_utf8 mem f.ptr n after ≡ (ok text, after)
      → read_text_pointer from_utf8 mem (some start) reff 0 0 r ≡ (ok text, after)
  unfolding ◌⟫=◌ read_text_pointer
  read_text_pointer-ok reff n start r r' after f text filled e q u =
      rw (read_text_pointer, filled, e, q) u

module _ {A : Allocator} {Cap : Type 0} where
  -- Setting a text of fewer than 2 ^ 29 - 1 bytes, which are UTF-8, at a null pointer that is a word in use
  -- of the first segment, in a message whose segments are valid and lie apart and whose memory is zero
  -- where it is not in use, with an allocator that keeps its promises: it succeeds. A reader of the
  -- segments that the message is written out as, whose traversal limit allows the words of the text with
  -- its terminator and one more, finds text at this pointer, through whatever far pointer was made, which
  -- is exactly these bytes.
  pub set_text-read_text :
      (Valid : A.State → Type 0) (from_utf8 : List ℕ → Bool) (fuel reff limit : ℕ) (value : List ℕ)
      (s : BuildState A Cap)
      → length value + 1 < 2 ^ 29
      → All (λ b. b < 256) value
      → from_utf8 value ≡ true
      → IsZeroed A Cap s.arena s.memory
      → is_null (pointer_at s.memory reff) ≡ true
      → InUse A Cap s.arena 0 reff
      → IsBuilt A Cap s.arena
      → IsLaidOut A Cap s.arena
      → Supplies A Valid (round_bytes_up_to_words (length value + 1) + 1) s.arena.allocator
      → Separates A Cap s.arena (round_bytes_up_to_words (length value + 1) + 1)
      → Valid s.arena.allocator
      → length s.arena.more_segments + 1 < 2 ^ 32
      → round_bytes_up_to_words (length value + 1) + 1 ≤ limit
      → (b : SegmentAnd TextBuilder) × (text : Slice) × (t : BuildState A Cap)
        × (readers : ReaderArena Cap) × (after : ReadState Cap) × (set_text_pointer fuel reff 0
              value s
            ≡ (ok b, t))
        × (new_arena Cap (outputs t.arena) ≡ ok readers)
        × (read_text_pointer from_utf8 t.memory
              (some readers.segment0)
              reff
              0
              0
              (record { arena = readers; limit = limit })
            ≡ (ok text, after))
        × (slice_bytes t.memory text.ptr text.size ≡ value)
  set_text-read_text Valid from_utf8 fuel reff limit value s small bytes utf8 zeroed null w b l
        supplies separates v few allowed =
      let n = length value + 1 in
      let (new, s', e, leads, st, fresh) =
        allocate_object_lem Valid fuel reff 0 (round_bytes_up_to_words n) list s (λ q. absurd cc)
          (omega (arith, small)) null w b l supplies separates v few in
      let u = list_half n byte in
      let u_small : u < 2 ^ 32 = omega (arith, small) in
      let t = text_written fuel reff 0 value small new s' in
      let kept = text_written-Keeps fuel reff 0 value small new s' leads in
      let (readers, opened, c, over, begins) = reader_of_outputs t.arena in
      let r0 : ReadState Cap = record { arena = readers; limit = limit } in
      let (r', follows, paid) =
        ReaderFinds-way t reff 0 (round_bytes_up_to_words n) list new st readers.segment0 r0
          leads.near (leads.way u t u_small kept) (leads.at u t u_small kept) c over begins
          (omega (arith, allowed)) in
      let (described, has_kind) = Leads-upper u leads u_small in
      let granted =
        whole-granted (round_bytes_up_to_words n) new st r'.limit (omega (arith, paid, allowed)) in
      let after : ReadState Cap = record r' { limit = r'.limit - round_bytes_up_to_words n } in
      let stored = slice_bytes-write_bytes value new.ptr (with_upper new.reff u s').memory bytes in
      (
        whole_text value new,
        record { ptr = new.ptr; size = length value },
        t,
        readers,
        after,
        set_text_pointer-ok fuel reff 0 value small new s s' e,
        opened,
        read_text_pointer-ok from_utf8 t.memory reff n readers.segment0 r0 r' after
            (record { reff = new.reff; ptr = new.ptr; segment = some (whole st) })
            (record { ptr = new.ptr; size = length value })
            (ap is_null kept.first ∙ leads.filled u u_small (λ g. omega arith)) follows
            (byte_list-ok t.memory new (whole st) n (r'.limit - round_bytes_up_to_words n) r'
              (ap (λ (x : WirePointer). x.upper32bits) (kept.second ∙ described))
              (ap kind kept.second ∙ has_kind) granted)
            (terminated_text-ok from_utf8 t.memory new.ptr (length value) after
              (terminated fuel reff 0 value small new s' leads
                (fresh zeroed (new.ptr + length value) (omega arith) (omega (arith, small))))
              (ap from_utf8 stored ∙ utf8)),
        stored,
      )
