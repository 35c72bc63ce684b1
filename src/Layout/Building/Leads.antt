-- ===== src/Layout/Building/Leads.antt =====
-- How a pointer leads to an object that `wire_helpers::allocate` has set up (src/private/layout.rs,
-- `follow_builder_fars`), and what may be written in between.
use capnproto_rust.Base.{
  ℕ, ◌+◌, ◌*◌, ◌%◌, ◌^◌, ◌≤◌, ◌<◌, ◌≡◌, ◌≢◌, ◌⊎◌, inl, inr, refl, sym, ap, ◌∙◌, false,
}
use capnproto_rust.Base.Outcome.{Outcome, ok}
use capnproto_rust.Arena.{SegmentBuilder, get_ptr_unchecked}
use capnproto_rust.Arena.Builder.{Allocator, get_segment}
use capnproto_rust.Layout.Pointer.{
  WirePointerKind, far, kind_code, WirePointer, kind, kind_from, is_null, target, segment_id,
  is_double_far, far_position_in_segment,
}
use capnproto_rust.Layout.Memory.{pointer_at}
use capnproto_rust.Layout.Building.{BuildState}
use capnproto_rust.Layout.Building.Written.{halves, pointer_at-write_pointer}
use capnproto_rust.Layout.Building.Objects.{Allocation, follow_builder_fars}
use capnproto_rust.Layout.Building.Runs.{follow-near, follow-far}
use capnproto_rust.Layout.Building.Allocated.{put}

-- The kind and the target of a pointer are in its lower half.
pub kind-lower : (p : WirePointer) (o u : ℕ) → p.offset_and_kind ≡ o → kind p ≡ kind (halves o u)
unfolding kind
kind-lower p o u e = ap (λ x. kind_from (x % 256 % 4)) e

pub target-lower :
    (this : ℕ) (p q : WirePointer)
    → p.offset_and_kind ≡ q.offset_and_kind
    → target this p ≡ target this q
unfolding target
target-lower this p q e = rw e refl

module _ {A : Allocator} {Cap : Type 0} where
  abbrev pub with_upper : ℕ → ℕ → BuildState A Cap → BuildState A Cap
  with_upper a u s = put a (halves (pointer_at s.memory a).offset_and_kind u) s

  -- The state `t` has the arena of `s`, and its pointers at two places.
  pub record Keeps (a b : ℕ) (s t : BuildState A Cap) : Type 0 where
    pub arena : t.arena ≡ s.arena
    pub first : pointer_at t.memory a ≡ pointer_at s.memory a
    pub second : pointer_at t.memory b ≡ pointer_at s.memory b

  pub Keeps-same : (a b : ℕ) (s : BuildState A Cap) → Keeps a b s s
  Keeps-same a b s = record { arena = refl; first = refl; second = refl }

  -- How the pointer at `reff` leads to `new`: it describes the object itself, or it is a far pointer to
  -- the pointer that does.
  abbrev pub Way : (reff segment : ℕ) → WirePointerKind → Allocation → BuildState A Cap → Type 0
  Way reff segment k new t =
      let p = pointer_at t.memory reff in
      ((new.reff ≡ reff) × (new.segment ≡ segment) × (kind p ≡ ok k))
      ⊎ ((kind p ≡ ok far)
          × (is_double_far p ≡ false)
          × (segment_id p ≡ new.segment)
          × (home : SegmentBuilder) × (get_segment A Cap t.arena new.segment ≡ ok home)
          × (get_ptr_unchecked home (far_position_in_segment p) ≡ new.reff))

  -- In the state `s`, the pointer at `reff` leads to the allocation `new` of `amount` words, and
  -- `new.reff` is a pointer of kind `k`, whatever its upper half becomes, and whatever is written
  -- elsewhere. The words lie apart from both pointers.
  pub record Leads (reff segment amount : ℕ) (k : WirePointerKind) (new : Allocation)
      (s : BuildState A Cap) : Type 0 where
    pub near : k ≢ far
    pub lower : (pointer_at s.memory new.reff).offset_and_kind < 2 ^ 32
    pub described : kind (pointer_at s.memory new.reff) ≡ ok k
    pub way :
        (u : ℕ) (t : BuildState A Cap)
        → u < 2 ^ 32
        → Keeps reff new.reff (with_upper new.reff u s) t
        → Way reff segment k new t
    pub at :
        (u : ℕ) (t : BuildState A Cap)
        → u < 2 ^ 32
        → Keeps reff new.reff (with_upper new.reff u s) t
        → target new.reff (pointer_at t.memory new.reff) ≡ new.ptr
    pub filled :
        (u : ℕ)
        → u < 2 ^ 32
        → (0 < amount → 0 < u + kind_code k)
        → is_null (pointer_at (with_upper new.reff u s).memory reff) ≡ false
    pub from_reff : (reff + 8 ≤ new.ptr) ⊎ (new.ptr + 8 * amount ≤ reff)
    pub from_new : (new.reff + 8 ≤ new.ptr) ⊎ (new.ptr + 8 * amount ≤ new.reff)

  follow-Way :
      (reff segment : ℕ) (k : WirePointerKind) (new : Allocation) (t : BuildState A Cap)
      → k ≢ far
      → Way reff segment k new t
      → target new.reff (pointer_at t.memory new.reff) ≡ new.ptr
      → follow_builder_fars reff (target reff (pointer_at t.memory reff)) segment t ≡ (ok new, t)
  follow-Way reff segment k new t near way at =
      let result : ℕ → ℕ → ℕ → Outcome Allocation × BuildState A Cap =
        λ r i p. (ok (record { reff = r; segment = i; ptr = p }), t) in
      elim way [
        | inl (same, home, is_k) ↦
            follow-near reff (target reff (pointer_at t.memory reff)) segment t k is_k near
            ∙ ap (λ r. result r segment (target r (pointer_at t.memory r))) (sym same)
            ∙ ap (λ i. result new.reff i (target new.reff (pointer_at t.memory new.reff)))
                (sym home)
            ∙ ap (result new.reff new.segment) at
        | inr (is_far, single, named, home, found, pad) ↦
            follow-far reff (target reff (pointer_at t.memory reff)) segment new.reff t
              (pointer_at t.memory reff) home refl is_far single
              (ap (get_segment A Cap t.arena) named ∙ found) pad
            ∙ ap (λ i. result new.reff i (target new.reff (pointer_at t.memory new.reff))) named
            ∙ ap (result new.reff new.segment) at
      ]

  -- Following the pointer gives the allocation.
  pub Leads-follows :
      {reff segment amount : ℕ} {k : WirePointerKind} {new : Allocation} {s : BuildState A Cap}
      (u : ℕ) (t : BuildState A Cap)
      → Leads reff segment amount k new s
      → u < 2 ^ 32
      → Keeps reff new.reff (with_upper new.reff u s) t
      → follow_builder_fars reff (target reff (pointer_at t.memory reff)) segment t ≡ (ok new, t)
  Leads-follows {reff = reff} {segment = segment} {k = k} {new = new} u t l small kept =
      follow-Way reff segment k new t l.near (l.way u t small kept) (l.at u t small kept)

  -- The pointer that describes the allocation, once its upper half is written
  pub Leads-upper :
      {reff segment amount : ℕ} {k : WirePointerKind} {new : Allocation} {s : BuildState A Cap}
      (u : ℕ)
      → Leads reff segment amount k new s
      → u < 2 ^ 32
      → (pointer_at (with_upper new.reff u s).memory new.reff
          ≡ halves (pointer_at s.memory new.reff).offset_and_kind u)
        × (kind (pointer_at (with_upper new.reff u s).memory new.reff) ≡ ok k)
  Leads-upper {new = new} {s = s} u l small =
      let o = (pointer_at s.memory new.reff).offset_and_kind in
      let p = pointer_at-write_pointer new.reff (halves o u) s.memory l.lower small in
      (p, ap kind p ∙ sym (kind-lower (pointer_at s.memory new.reff) o u refl) ∙ l.described)
