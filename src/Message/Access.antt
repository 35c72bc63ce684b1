-- ===== src/Message/Access.antt =====
-- `Reader` and `Builder` of src/message.rs: the root of a message, read or built as a type. What the type
-- chooses (`FromPointerReader`, `FromPointerBuilder`, `SetPointerBuilder`) is a parameter.
use capnproto_rust.Base.{ℕ, Option, List}
use capnproto_rust.Base.Outcome.{Outcome, ok, err, fault, ◌>>=◌}
use capnproto_rust.Arena.{get_start_ptr}
use capnproto_rust.Arena.Reader.{RawSegments, ReaderArena}
use capnproto_rust.Arena.Reader
use capnproto_rust.Arena.Builder.{Allocator, BuilderArena}
use capnproto_rust.Serialize.{ReaderOptions}
use capnproto_rust.Layout.Memory.{ReadState, Run, ◌⟫=◌}
use capnproto_rust.Layout.Readers.{PointerReader, get_root}
use capnproto_rust.Layout.Building.{Build, ◌≫=◌}
use capnproto_rust.Layout.Builders.Pointers.{PointerBuilder, builder_root}
use capnproto_rust.Message.{get_root_internal}

-- `message::Reader::new`: the state of the readers, whose limit is that of the options.
unfoldable pub new_message_reader :
    {Cap : Type 0} → RawSegments → ReaderOptions → Outcome (ReadState Cap)
new_message_reader segments options = Reader.new_arena _ segments >>= λ arena.
    ok (record { arena = arena; limit = options.traversal_limit_in_words })

module _ {Cap : Type 0} (options : ReaderOptions) where
  -- `message::Reader::get_root_internal`
  unfoldable pub read_root_internal : Run Cap PointerReader
  read_root_internal s =
      get_root s.arena.segment0 (get_start_ptr s.arena.segment0) options.nesting_limit s

  -- `message::Reader::get_root`
  unfoldable pub read_root : {T : Type 0} → (PointerReader → Run Cap T) → Run Cap T
  read_root from = read_root_internal ⟫= from

-- `init_cap_table` of a reader, and of its arena
unfoldable pub init_cap_table : {Cap : Type 0} → List (Option Cap) → ReadState Cap → ReadState Cap
init_cap_table cap_table s = record s { arena = record s.arena { cap_table = cap_table } }

module _ {A : Allocator} {Cap : Type 0} where
  -- The root pointer, in the first segment
  unfoldable pub root_builder : Build A Cap PointerBuilder
  root_builder s = elim (get_root_internal A Cap s.arena) [
    | ok (location, arena) ↦ (ok (builder_root 0 location), record s { arena = arena })
    | err e ↦ (err e, s)
    | fault x ↦ (fault x, s)
  ]

  -- `message::Builder::init_root`
  unfoldable pub init_root : {T : Type 0} → (PointerBuilder → ℕ → Build A Cap T) → Build A Cap T
  init_root init_pointer = root_builder ≫= λ b. init_pointer b 0

  -- `message::Builder::get_root`
  unfoldable pub get_builder_root : {T : Type 0} → (PointerBuilder → Build A Cap T) → Build A Cap T
  get_builder_root from = root_builder ≫= from

  -- `message::Builder::set_root`
  unfoldable pub set_root :
      {T : Type 0} → (PointerBuilder → T → Build A Cap (Unit {0})) → T → Build A Cap (Unit {0})
  set_root set_pointer_builder value = root_builder ≫= λ b. set_pointer_builder b value

  -- `get_cap_table` of a builder, and of its arena
  abbrev pub get_cap_table : BuilderArena A Cap → List (Option Cap)
  get_cap_table arena = arena.cap_table
