-- ===== src/AnyPointer/Pipelined.antt =====
-- Following the operations of a pipeline through a message (src/any_pointer.rs, `get_pipelined_cap`).
use capnproto_rust.Base.{
  ℕ, ◌+◌, ◌*◌, ◌≤◌, ◌<◌, ◌≡◌, ◌⊎◌, inl, inr, refl, sym, subst, none, some, true, false, List, [],
  ◌∷◌, arith, ltb,
}
use capnproto_rust.Arena.{SegmentReader}
use capnproto_rust.Arena.Reader.{RawSegments}
use capnproto_rust.Layout.Pointer.{is_null}
use capnproto_rust.Layout.Memory.{Memory, pointer_at, ReadState, pure}
use capnproto_rust.Layout.Contract.{InMessage, Ready, Post, Holds, Holds-pure, Holds-bind}
use capnproto_rust.Layout.Contract.Checks.{Mapped}
use capnproto_rust.Layout.Reading.{StructReader, default_struct, read_struct_pointer}
use capnproto_rust.Layout.Reading.Structs.{IsStruct, read_struct_pointer_lem}
use capnproto_rust.Layout.Readers.{PointerReader, get_struct, get_pointer_field, reff_of}
use capnproto_rust.Layout.Readers.Elements.{get_pointer_field-inside}
use capnproto_rust.AnyPointer.{PipelineOp, noop, get_pointer_field_op, follow_ops}

-- A pointer that is a word of a segment of the message
pub record PointerInside (table : RawSegments) (r : PointerReader) : Type 0 where
  pub home : SegmentReader
  pub segment_is : r.segment ≡ some home
  pub in_message : InMessage table home
  pub starts : home.ptr ≤ r.pointer
  pub ends : r.pointer + 8 ≤ home.ptr + 8 * home.size

-- The null pointer without a segment, or a pointer in the message
abbrev pub IsPointer : RawSegments → PointerReader → Type 0
IsPointer table r = ((r.segment ≡ none) × (r.pointer ≡ 0)) ⊎ PointerInside table r

default_field :
    (idx : ℕ)
    → ((get_pointer_field default_struct idx).segment ≡ none)
      × ((get_pointer_field default_struct idx).pointer ≡ 0)
unfolding get_pointer_field
default_field idx = let e : ltb idx 0 ≡ false = ground arith in rw e (refl, refl)

field-IsPointer :
    (table : RawSegments) (nesting_limit : ℕ) (r : StructReader) (idx : ℕ)
    → Mapped table
    → IsStruct table nesting_limit r
    → IsPointer table (get_pointer_field r idx)
unfolding get_pointer_field
field-IsPointer table nesting_limit r idx mapped (inl e) =
    subst (λ x. IsPointer table (get_pointer_field x idx)) (sym e) (inl (default_field idx))
field-IsPointer table nesting_limit r idx mapped (inr inside) =
    elim (get_pointer_field-inside table nesting_limit r idx inside mapped) [
      | inl (beyond, e) ↦ subst (IsPointer table) (sym e) (inl (refl, refl))
      | inr (within, starts, ends, segment_is, nested) ↦ inr (record {
        home = inside.home;
        segment_is = segment_is;
        in_message = inside.in_message;
        starts = starts;
        ends = ends;
      })
    ]

module _ {Cap : Type 0} (table : RawSegments) (mem : Memory) (zero_pointer : ℕ)
    (mapped : Mapped table) (bytes : (a : ℕ) → mem a < 256)
    (zeroed : is_null (pointer_at mem zero_pointer) ≡ true) where
  null-struct :
      (r : PointerReader)
      → r.segment ≡ none
      → r.pointer ≡ 0
      → get_struct {Cap = Cap} mem zero_pointer r none ≡ pure default_struct
  unfolding get_struct read_struct_pointer
  null-struct r s p = rw (p, zeroed) refl

  Holds-inside :
      {c : ℕ} (home : SegmentReader) (reff nesting_limit : ℕ)
      → InMessage table home
      → Holds table
          (λ _. ⊥)
          {Cap = Cap}
          c
          (IsStruct table nesting_limit)
          (λ _. 0)
          (read_struct_pointer mem (some home) reff none nesting_limit)
  Holds-inside home reff nesting_limit i = record {
    run = λ s ready.
        let p = read_struct_pointer_lem table mem home reff nesting_limit s mapped bytes i ready in
        record {
          ready = p.ready;
          less = p.less;
          result = λ a e. let (q, paid) = p.result a e in (q, omega (arith, paid));
          faults = p.faults;
        };
  }

  Holds-get_struct :
      {c : ℕ} (r : PointerReader)
      → IsPointer table r
      → Holds table
          (λ _. ⊥)
          {Cap = Cap}
          c
          (IsStruct table r.nesting_limit)
          (λ _. 0)
          (get_struct mem zero_pointer r none)
  unfolding get_struct
  Holds-get_struct {c = c} r (inl (s, p)) =
      subst (Holds table (λ _. ⊥) {Cap = Cap} c (IsStruct table r.nesting_limit) (λ _. 0))
        (sym (null-struct r s p)) (Holds-pure default_struct (inl refl) (omega arith))
  Holds-get_struct {c = c} r (inr i) =
      subst
        (λ o.
          Holds table (λ _. ⊥) {Cap = Cap} c (IsStruct table r.nesting_limit) (λ _. 0)
            (read_struct_pointer mem o (reff_of zero_pointer r) none r.nesting_limit))
        (sym i.segment_is)
        (Holds-inside i.home (reff_of zero_pointer r) r.nesting_limit i.in_message)

  Holds-follow_ops :
      {c : ℕ} (ops : List PipelineOp) (r : PointerReader)
      → IsPointer table r
      → Holds table
          (λ _. ⊥)
          {Cap = Cap}
          c
          (IsPointer table)
          (λ _. 0)
          (follow_ops mem zero_pointer ops r)
  unfolding follow_ops
  Holds-follow_ops [] r p = Holds-pure r p (omega arith)
  Holds-follow_ops (noop ∷ ops) r p = Holds-follow_ops ops r p
  Holds-follow_ops (get_pointer_field_op idx ∷ ops) r p =
      Holds-bind (get_struct mem zero_pointer r none) _ (Holds-get_struct r p) (λ t is_struct.
        Holds-follow_ops ops (get_pointer_field t idx)
          (field-IsPointer table r.nesting_limit t idx mapped is_struct))

-- Following the operations of a pipeline from a pointer of a message whose segments lie in memory, where
-- the static null pointer is null, whatever the bytes of the message are: it never panics, and the
-- pointer that it ends at is the null pointer without a segment, or a word of a segment of the message.
pub follow_ops_lem :
    {Cap : Type 0} (table : RawSegments) (mem : Memory) (zero_pointer : ℕ) (ops : List PipelineOp)
    (r : PointerReader) (s : ReadState Cap)
    → Mapped table
    → ((a : ℕ) → mem a < 256)
    → is_null (pointer_at mem zero_pointer) ≡ true
    → IsPointer table r
    → Ready table s
    → Post table (λ _. ⊥) 0 (IsPointer table) (λ _. 0) s (follow_ops mem zero_pointer ops r s)
follow_ops_lem table mem zero_pointer ops r s mapped bytes zeroed p ready =
    (Holds-follow_ops table mem zero_pointer mapped bytes zeroed ops r p).run s ready
