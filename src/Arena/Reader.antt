-- ===== src/Arena/Reader.antt =====
-- `ReaderArena` and `ArenaPtr` (src/private/arena.rs): the segments of a message that is being read,
-- which are looked up in the message's `ReaderSegments` and then kept.
use capnproto_rust.Base.{
  true, false, ℕ, ◌⊎◌, Option-cases, ◌%◌, ◌^◌, ◌≡◌, ◌≢◌, refl, sym, ap, ◌∙◌, inl, inr, List, [],
  ◌∷◌, Option, none, some, get_elem?, Bool-cases, ◌==◌, if◌then◌else◌, ==→eq,
}
use capnproto_rust.Base.Outcome.{Outcome, ok, err, fault, panicked, invalid_segment_id}
use capnproto_rust.Arena.{SegmentReader}

-- `ReaderSegments::get_segment`: address and length of a slice.
abbrev pub RawSegments : Type 0
RawSegments = ℕ → Option (ℕ × ℕ)

abbrev pub new_reader : ℕ × ℕ → SegmentReader
new_reader (ptr, len) = record { ptr = ptr; size = len % 2 ^ 32 }

module _ (Cap : Type 0) where
  pub record ReaderArena : Type 0 where
    pub raw_segments : RawSegments
    pub segment0 : SegmentReader
    pub more_segments : List (ℕ × SegmentReader)
    pub cap_table : List (Option Cap)

  -- `ReaderArena::new`
  unfoldable pub new_arena : RawSegments → Outcome ReaderArena
  new_arena segments = elim (segments 0) [
    | none ↦ fault panicked
    | some s ↦ ok (record {
      raw_segments = segments;
      segment0 = new_reader s;
      more_segments = [];
      cap_table = [];
    })
  ]

-- What the message's own table of segments says.
abbrev pub answer : Option (ℕ × ℕ) → Outcome SegmentReader
answer none = err invalid_segment_id
answer (some raw) = ok (new_reader raw)

-- `HashMap::get` as a lookup in an association list
unfoldable pub lookup_segment : ℕ → List (ℕ × SegmentReader) → Option SegmentReader
lookup_segment id [] = none
lookup_segment id ((k, s) ∷ m) = if k == id then some s else lookup_segment id m

lookup_segment-first :
    (id : ℕ) (s : SegmentReader) (m : List (ℕ × SegmentReader)) (j : ℕ) (t : SegmentReader)
    → lookup_segment j ((id, s) ∷ m) ≡ some t
    → ((id ≡ j) × (s ≡ t)) ⊎ (lookup_segment j m ≡ some t)
unfolding lookup_segment
lookup_segment-first id s m j t = elim (Bool-cases (id == j)) [
  | inl e ↦ rw e (λ h. inl (==→eq id j e, cc))
  | inr e ↦ rw e (λ h. inr h)
]

lookup_segment-nil : (id : ℕ) (s : SegmentReader) → lookup_segment id [] ≢ some s
unfolding lookup_segment
lookup_segment-nil id s h = absurd cc

module _ {Cap : Type 0} where
  -- A segment that is not yet known is looked up, and kept.
  unfoldable pub load_segment : ReaderArena Cap → ℕ → Outcome (SegmentReader × ReaderArena Cap)
  load_segment arena id = elim (arena.raw_segments id) [
    | none ↦ err invalid_segment_id
    | some s ↦
        ok (new_reader s, record arena { more_segments = (id, new_reader s) ∷ arena.more_segments })
  ]

  unfoldable pub try_get_segment : ReaderArena Cap → ℕ → Outcome (SegmentReader × ReaderArena Cap)
  try_get_segment arena id =
      if id == 0 then ok (arena.segment0, arena) else elim (lookup_segment id arena.more_segments) [
        | some s ↦ ok (s, arena)
        | none ↦ load_segment arena id
      ]

  -- `ArenaPtr::extract_cap` on a reader
  unfoldable pub extract_cap : ReaderArena Cap → ℕ → Option Cap
  extract_cap arena index = elim (get_elem? arena.cap_table index) [ none ↦ none | some c ↦ c ]

  -- What is kept is what a lookup would give.
  pub record IsCoherent (arena : ReaderArena Cap) : Type 0 where
    pub first : (s : ℕ × ℕ) → arena.raw_segments 0 ≡ some s → arena.segment0 ≡ new_reader s
    pub has_first : arena.raw_segments 0 ≢ none
    pub kept :
        (id : ℕ) (s : SegmentReader)
        → lookup_segment id arena.more_segments ≡ some s
        → (raw : ℕ × ℕ) × (arena.raw_segments id ≡ some raw) × (s ≡ new_reader raw)

  load_segment-IsCoherent :
      (arena : ReaderArena Cap) (id : ℕ) (raw : ℕ × ℕ)
      → arena.raw_segments id ≡ some raw
      → IsCoherent arena
      → IsCoherent (record arena { more_segments = (id, new_reader raw) ∷ arena.more_segments })
  load_segment-IsCoherent arena id raw e c = record {
    first = c.first;
    has_first = c.has_first;
    kept = λ j s h. elim (lookup_segment-first id (new_reader raw) arena.more_segments j s h) [
      | inl (same, t) ↦ (raw, ap arena.raw_segments (sym same) ∙ e, sym t)
      | inr old ↦ c.kept j s old
    ];
  }

  try_first :
      (arena : ReaderArena Cap) (id : ℕ)
      → (id == 0) ≡ true
      → try_get_segment arena id ≡ ok (arena.segment0, arena)
  unfolding try_get_segment
  try_first arena id z = rw z refl

  module _ (arena : ReaderArena Cap) (id : ℕ) where
    try_kept :
        (s : SegmentReader)
        → (id == 0) ≡ false
        → lookup_segment id arena.more_segments ≡ some s
        → try_get_segment arena id ≡ ok (s, arena)
    unfolding try_get_segment
    try_kept s z k = rw (z, k) refl

    try_unknown :
        (id == 0) ≡ false
        → lookup_segment id arena.more_segments ≡ none
        → arena.raw_segments id ≡ none
        → try_get_segment arena id ≡ err invalid_segment_id
    unfolding try_get_segment load_segment
    try_unknown z k n = rw (z, k, load_segment, n) refl

    try_load :
        (raw : ℕ × ℕ)
        → (id == 0) ≡ false
        → lookup_segment id arena.more_segments ≡ none
        → arena.raw_segments id ≡ some raw
        → try_get_segment arena id
          ≡ ok (
            new_reader raw,
            record arena { more_segments = (id, new_reader raw) ∷ arena.more_segments },
          )
    unfolding try_get_segment load_segment
    try_load raw z k e = rw (z, k, load_segment, e) refl

  -- A lookup in a coherent arena gives what the message's table says, whether the segment is kept or
  -- not, and leaves the arena coherent, over the same table.
  pub try_get_segment-answer :
      (arena : ReaderArena Cap) (id : ℕ)
      → IsCoherent arena
      → ((answer (arena.raw_segments id) ≡ err invalid_segment_id)
          × (try_get_segment arena id ≡ err invalid_segment_id))
        ⊎ ((s : SegmentReader) × (arena' : ReaderArena Cap) × (answer (arena.raw_segments id)
              ≡ ok s)
            × (try_get_segment arena id ≡ ok (s, arena'))
            × IsCoherent arena'
            × (arena'.raw_segments ≡ arena.raw_segments))
  try_get_segment-answer arena id c = elim (Bool-cases (id == 0)) [
    | inl z ↦ elim (Option-cases (arena.raw_segments 0)) [
      | inl n ↦ absurd (c.has_first n)
      | inr (raw, e) ↦
          let t : arena.raw_segments id ≡ some raw = ap arena.raw_segments (==→eq id 0 z) ∙ e in
          inr (
            arena.segment0,
            arena,
            ap answer t ∙ ap ok (sym (c.first raw e)),
            try_first arena id z,
            c,
            refl,
          )
    ]
    | inr z ↦ elim (Option-cases (lookup_segment id arena.more_segments)) [
      | inr (s, k) ↦
          let (raw, e, t) = c.kept id s k in
          inr (s, arena, ap answer e ∙ ap ok (sym t), try_kept arena id s z k, c, refl)
      | inl k ↦ elim (Option-cases (arena.raw_segments id)) [
        | inl n ↦ inl (ap answer n, try_unknown arena id z k n)
        | inr (raw, e) ↦ inr (
          new_reader raw,
          record arena { more_segments = (id, new_reader raw) ∷ arena.more_segments },
          ap answer e,
          try_load arena id raw z k e,
          load_segment-IsCoherent arena id raw e c,
          refl,
        )
      ]
    ]
  ]

  -- `ReaderArena::new` makes a coherent arena over the message's table.
  pub new_arena-IsCoherent :
      (segments : RawSegments) (raw : ℕ × ℕ)
      → segments 0 ≡ some raw
      → (arena : ReaderArena Cap) × (new_arena Cap segments ≡ ok arena)
        × IsCoherent arena
        × (arena.raw_segments ≡ segments)
  unfolding new_arena
  new_arena-IsCoherent segments raw e = (
    record {
      raw_segments = segments;
      segment0 = new_reader raw;
      more_segments = [];
      cap_table = [];
    },
    rw (new_arena, e) refl,
    record {
      first = λ s h. ap (λ o. elim o [ none ↦ new_reader raw | some x ↦ new_reader x ]) (sym e ∙ h);
      has_first = λ n. absurd cc;
      kept = λ id s h. absurd (lookup_segment-nil id s h);
    },
    refl,
  )
