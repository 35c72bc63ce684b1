-- ===== src/AnyPointer.antt =====
-- Pointers of any type (src/any_pointer.rs): a `Reader` is a `PointerReader`, and a `Builder` is a
-- `PointerBuilder`. What a type chooses by its traits is a parameter.
pub mod Pipelined
mod Tests
use capnproto_rust.Base.{ℕ, ◌%◌, List, [], ◌∷◌, ◌++◌, Option, none}
use capnproto_rust.Layout.Memory.{Memory, Run, ◌⟫=◌, pure}
use capnproto_rust.Layout.Readers.{PointerReader, get_struct, get_capability, get_pointer_field}
use capnproto_rust.Arena.Builder.{Allocator}
use capnproto_rust.Layout.Building.{Build}
use capnproto_rust.Layout.Builders.Pointers.{PointerBuilder, copy_from}

-- `PipelineOp` of src/private/capability.rs
pub data PipelineOp : Type 0 where
  noop : PipelineOp
  get_pointer_field_op : ℕ → PipelineOp

module _ {Cap : Type 0} where
  -- `Reader::get_as`
  abbrev pub get_as : {T : Type 0} → (PointerReader → Run Cap T) → PointerReader → Run Cap T
  get_as from reader = from reader

  -- The reader of any type is the pointer itself.
  abbrev pub any_from_pointer : PointerReader → Run Cap PointerReader
  any_from_pointer reader = pure reader

module _ {Cap : Type 0} (mem : Memory) (zero_pointer : ℕ) where
  -- `Reader::get_as_capability`, where `new` is `FromClientHook::new`
  unfoldable pub get_as_capability : {T : Type 0} → (Cap → T) → PointerReader → Run Cap T
  get_as_capability new reader = get_capability mem zero_pointer reader ⟫= λ cap. pure (new cap)

  -- The loop of `get_pipelined_cap`
  unfoldable pub follow_ops : List PipelineOp → PointerReader → Run Cap PointerReader
  follow_ops [] reader = pure reader
  follow_ops (noop ∷ ops) reader = follow_ops ops reader
  follow_ops (get_pointer_field_op idx ∷ ops) reader =
      get_struct mem zero_pointer reader none ⟫= λ r. follow_ops ops (get_pointer_field r idx)

  -- `Reader::get_pipelined_cap`
  unfoldable pub get_pipelined_cap : List PipelineOp → PointerReader → Run Cap Cap
  get_pipelined_cap ops reader = follow_ops ops reader ⟫= get_capability mem zero_pointer

-- `SetPointerBuilder::set_pointer_builder` of a reader of any type
unfoldable pub set_any_pointer :
    {A : Allocator} {Cap : Type 0} → ℕ → PointerBuilder → PointerReader → Build A Cap (Unit {0})
set_any_pointer fuel pointer_builder value = copy_from fuel pointer_builder value

module _ {A : Allocator} {Cap : Type 0} where
  -- `Builder::get_as`, `initn_as` and `set_as`; `init_as` is `initn_as` of size 0.
  abbrev pub builder_get_as :
      {T : Type 0} → (PointerBuilder → Build A Cap T) → PointerBuilder → Build A Cap T
  builder_get_as from b = from b

  abbrev pub initn_as :
      {T : Type 0} → (PointerBuilder → ℕ → Build A Cap T) → PointerBuilder → ℕ → Build A Cap T
  initn_as init_pointer b size = init_pointer b size

  abbrev pub set_as :
      {T : Type 0}
      → (PointerBuilder → T → Build A Cap (Unit {0}))
      → PointerBuilder
      → T
      → Build A Cap (Unit {0})
  set_as set_pointer_builder b value = set_pointer_builder b value

-- `Pipeline`, less its hook
abbrev pub Pipeline : Type 0
Pipeline = List PipelineOp

-- `Pipeline::get_pointer_field`
unfoldable pub pipeline_get_pointer_field : Pipeline → ℕ → Pipeline
pipeline_get_pointer_field ops pointer_index = ops ++ (get_pointer_field_op pointer_index ∷ [])
