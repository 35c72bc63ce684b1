-- ===== src/Lists/Iteration.antt =====
-- The iterator of the lists (src/traits.rs, `ListIter`), and what goes through it.
use capnproto_rust.Base.{
  ℕ, zero, suc, ◌+◌, ◌<◌, ◌≡◌, refl, List, [], ◌∷◌, Option, none, some, ltb, true, false,
  if◌then◌else◌, arith, lt→ltb,
}
use capnproto_rust.Base.Outcome.{Outcome, ok, fault, no_fuel, ◌>>=◌, map_ok}
use capnproto_rust.Layout.Reading.{StructReader, ListReader}
use capnproto_rust.Layout.Readers.{get_struct_element}
use capnproto_rust.Layout.Builders.ListElements.{reader_len}
use capnproto_rust.Lists.Objects.{get_struct_at}

-- `ListIter`, less the list
pub record ListIter : Type 0 where
  pub index : ℕ
  pub size : ℕ

-- `ListIter::new`
abbrev pub new_iter : ℕ → ListIter
new_iter size = record { index = 0; size = size }

module _ {T : Type 0} (index_move : ℕ → Outcome T) where
  -- `ListIter::next`
  unfoldable pub next : ListIter → Outcome (Option T × ListIter)
  next it =
      if ltb it.index it.size
      then (index_move it.index >>= λ result. ok (some result, record it { index = it.index + 1 }))
      else ok (none, it)

  -- What a `for` loop goes through, in at most as many rounds as there is fuel.
  unfoldable pub collect : ℕ → ListIter → Outcome (List T)
  collect zero it = fault no_fuel
  collect (suc fuel) it = next it >>= λ (item, it'). elim item [
    | none ↦ ok []
    | some t ↦ map_ok (λ ts. t ∷ ts) (collect fuel it')
  ]

-- `f start`, `f (start + 1)`, and so on
abbrev pub count_from : {T : Type 0} → (ℕ → T) → (start n : ℕ) → List T
count_from f start zero = []
count_from f start (suc n) = f start ∷ count_from f (start + 1) n

module _ {T : Type 0} (index_move : ℕ → Outcome T) (f : ℕ → T) where
  collect-from :
      (n start size : ℕ)
      → start + n ≡ size
      → ((i : ℕ) → i < size → index_move i ≡ ok (f i))
      → collect index_move (suc n) (record { index = start; size = size })
        ≡ ok (count_from f start n)
  unfolding collect next
  collect-from zero start size e h =
      let w : ltb start size ≡ false = ground (arith, e) in rw (collect, next, w) refl
  collect-from (suc n) start size e h =
      let w : ltb start size ≡ true = ground (arith, e) in
      rw
        (
          collect,
          next,
          w,
          h start (omega (arith, e)),
          collect-from n (start + 1) size (omega (arith, e)) h,
        )
        refl

-- Iterating over a list of structs ends after one round for each element and one more, never panics, and
-- goes through every element in order, whatever the list is.
pub iterate-get_struct_element :
    {T : Type 0} (new : StructReader → T) (r : ListReader)
    → collect (get_struct_at new r) (suc (reader_len r)) (new_iter (reader_len r))
      ≡ ok (count_from (λ i. new (get_struct_element r i)) 0 (reader_len r))
unfolding get_struct_at
iterate-get_struct_element new r =
    collect-from (get_struct_at new r) (λ i. new (get_struct_element r i)) (reader_len r) 0
      (reader_len r) (omega arith) (λ i l. let w = lt→ltb i (reader_len r) l in rw w refl)
