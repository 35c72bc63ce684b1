-- ===== src/Layout/Building/Found.antt =====
-- `wire_helpers::allocate` on a null pointer of a message that is in order (src/private/layout.rs).
use capnproto_rust.Base.{
  ℕ, ◌+◌, ◌^◌, ◌<◌, ◌≡◌, ◌≢◌, inl, inr, sym, subst, true, length, ◌==◌, ◌&&◌, Bool-cases,
}
use capnproto_rust.Base.Outcome.{ok}
use capnproto_rust.Arena.Builder.{Allocator}
use capnproto_rust.Arena.Segment.{fits_or_full}
use capnproto_rust.Arena.Granted.{IsBuilt}
use capnproto_rust.Arena.Allocation.{Supplies, allocate_lem}
use capnproto_rust.Arena.Apart.{IsLaidOut, Separates, Granted-IsLaidOut}
use capnproto_rust.Layout.Pointer.{WirePointerKind, struct, far, is_null}
use capnproto_rust.Layout.Memory.{pointer_at}
use capnproto_rust.Layout.Building.{BuildState}
use capnproto_rust.Layout.Building.Objects.{Allocation, is_struct, allocate_object}
use capnproto_rust.Layout.Building.Stands.{Stands}
use capnproto_rust.Layout.Building.Leads.{Leads}
use capnproto_rust.Layout.Building.Finds.{
  InUse, IsFresh, empty_case, Finds, Finds-empty, Finds-near, Finds-far,
}

module _ {A : Allocator} {Cap : Type 0} where
  -- In a message whose segments are valid and lie apart, with an allocator that keeps its promises for one
  -- word more than is asked for, and fewer than 2 ^ 32 - 1 further segments: allocating an object for a
  -- null pointer that is a word in use succeeds, in the same segment or behind a far pointer. Following
  -- the pointer then leads to what was allocated, whatever is put into the upper half of the pointer that
  -- describes it, and it is not null where that half or the kind is not 0. All of it lies in the part of
  -- a segment that is in use, and what was not in use before is still 0 if it was.
  pub allocate_object_lem :
      (Valid : A.State → Type 0) (fuel reff segment amount : ℕ) (k : WirePointerKind)
      (s : BuildState A Cap)
      → k ≢ far
      → amount + 1 < 2 ^ 32
      → is_null (pointer_at s.memory reff) ≡ true
      → InUse A Cap s.arena segment reff
      → IsBuilt A Cap s.arena
      → IsLaidOut A Cap s.arena
      → Supplies A Valid (amount + 1) s.arena.allocator
      → Separates A Cap s.arena (amount + 1)
      → Valid s.arena.allocator
      → length s.arena.more_segments + 1 < 2 ^ 32
      → (new : Allocation) × (s' : BuildState A Cap) × (allocate_object fuel reff segment amount k s
          ≡ (ok new, s'))
        × Leads reff segment amount k new s'
        × Stands A Cap s'.arena amount new
        × IsFresh s s' amount new
  allocate_object_lem Valid fuel reff segment amount k s near small null w b l supplies separates v
        few =
      let i = b segment w.home w.found in
      elim (Bool-cases (amount == 0 && is_struct k)) [
        | inl e ↦
            let (z, q) = empty_case amount k e in
            subst (Finds fuel reff segment s amount) (sym q) (
              subst (λ n. Finds fuel reff segment s n struct) (sym z)
                (Finds-empty fuel reff segment s i.used w i.has_used null))
        | inr e ↦ elim (fits_or_full w.home i.used amount i.has_used) [
          | inl (home', a, h', r, d) ↦
              Finds-near fuel reff segment s amount k near null e w l b i.used home' i.has_used a h'
                r
          | inr a ↦
              let (id, ptr, arena', q, v', b', g) =
                allocate_lem A Cap s.arena (amount + 1) Valid b supplies v few in
              Finds-far fuel reff segment s amount k near null e w l b id ptr arena' a small few q g
                (Granted-IsLaidOut A Cap s.arena (amount + 1) id ptr arena' g l separates)
        ]
      ]
