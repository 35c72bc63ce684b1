-- ===== src/Base/Outcome.antt =====
-- The outcome of fallible code: `Result` of lib.rs, with what a Rust program can also do, which is
-- to panic, to touch memory out of bounds in an `unsafe` block, or not to come to an end.
use mathlib.Core.Path.{◌≡◌, refl}
use mathlib.Core.Bool.{Bool, true, false}

-- Each message that the library puts into an error. The first two are those of `std::io::Error`s.
pub data Error : Type 0 where
  premature_eof not_on_segment_boundary : Error
  too_many_segments too_few_segments message_too_large wrong_number_of_words : Error
  invalid_segment_id null_arena : Error
  out_of_bounds amplified_list too_deeply_nested : Error
  not_a_struct not_a_list not_a_capability unknown_pointer invalid_capability : Error
  non_struct_inline_composite elements_overrun incompatible_element : Error
  not_bytes no_nul_terminator not_utf8 : Error

-- `panicked`: an `assert!`, `unwrap` or `panic!`. `overrun`: an access outside a buffer.
-- `no_fuel`: no Rust behaviour; the model's loop ran out of rounds.
pub data Fault : Type 0 where
  panicked overrun no_fuel : Fault

pub data Outcome {ℓ} (A : Type ℓ) : Type ℓ where
  fault : Fault → Outcome A
  err : Error → Outcome A
  ok : A → Outcome A

abbrev pub map_ok {ℓ κ} : {A : Type ℓ} {B : Type κ} → (A → B) → Outcome A → Outcome B
map_ok f (fault x) = fault x
map_ok f (err x) = err x
map_ok f (ok a) = ok (f a)

-- `assert!(test)`
abbrev pub assert : Bool → Outcome (Unit {0})
assert test = elim test [ false ↦ fault panicked | true ↦ ok tt ]

-- `try!`, which hands on errors, as unwinding hands on a panic.
infixl 5 ◌>>=◌
abbrev pub ◌>>=◌ {ℓ κ} : {A : Type ℓ} {B : Type κ} (run : Outcome A) → (A → Outcome B) → Outcome B
fault x >>= then_do = fault x
err x >>= then_do = err x
ok value >>= then_do = then_do value

infixl 5 ◌>>◌
abbrev pub ◌>>◌ {ℓ} : {A : Type ℓ} (check : Outcome (Unit {0})) (run : Outcome A) → Outcome A
check >> run = check >>= (λ passed. run)

-- Where a chain returns, each of its parts does.
pub >>=-eq-ok {ℓ κ} :
    {A : Type ℓ} {B : Type κ} (run : Outcome A) (then_do : A → Outcome B) {answer : B}
    → (run >>= then_do) ≡ ok answer
    → (value : A) × (run ≡ ok value) × (then_do value ≡ ok answer)
>>=-eq-ok (fault x) then_do returned = cc
>>=-eq-ok (err x) then_do returned = cc
>>=-eq-ok (ok value) then_do returned = (value, refl, returned)

-- Two runs keep step if their first parts do, and what follows keeps step from equal states on.
pub sim {ℓ ℓ' κ κ'} :
    {A : Type ℓ} {A' : Type ℓ'} {B : Type κ} {B' : Type κ'} {g : A → A'} (h : B → B')
    (m : Outcome A) {m' : Outcome A'} (k : A → Outcome B) (k' : A' → Outcome B')
    → map_ok g m ≡ m'
    → ((a : A) → map_ok h (k a) ≡ k' (g a))
    → map_ok h (m >>= k) ≡ (m' >>= k')
sim h (ok a) k k' e f = rw (← e) (f a)
sim h (err x) k k' e f = rw (← e)
sim h (fault x) k k' e f = rw (← e)

pub map_ok-eq-ok {ℓ κ} :
    {A : Type ℓ} {B : Type κ} (f : A → B) (m : Outcome A) {b : B}
    → map_ok f m ≡ ok b
    → (a : A) × (m ≡ ok a) × (f a ≡ b)
map_ok-eq-ok f (ok a) h = (a, refl, cc)
map_ok-eq-ok f (err e) h = cc
map_ok-eq-ok f (fault x) h = cc
