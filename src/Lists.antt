-- ===== src/Lists.antt =====
-- The typed lists (src/primitive_list.rs, src/enum_list.rs, src/struct_list.rs, src/list_list.rs,
-- src/text_list.rs, src/data_list.rs). Their readers and builders are those of src/private/layout.rs
-- with a type, so each is a `ListReader` or a `ListBuilder` here. What the traits of src/traits.rs
-- choose by the type is a parameter.
pub mod Numbers
pub mod Objects
pub mod Iteration
mod Tests
use capnproto_rust.Base.{ℕ, Bool, ltb}
use capnproto_rust.Base.Outcome.{Outcome, ok, assert, ◌>>◌}

-- `assert!(index < self.len())`, and then the element
abbrev pub checked_index : {T : Type 0} → (index len : ℕ) → Outcome T → Outcome T
checked_index index len element = assert (ltb index len) >> element
