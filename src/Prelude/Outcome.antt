-- ===== src/Prelude/Outcome.antt =====
-- `K2Result` of crates/api/src/error.rs, with the calls that panic: an operation returns a value,
-- an error, or panics.
use Prim.Native.Nat.{ℕ}
use Prim.Native.String.{String}
use mathlib.Core.Path.{◌≡◌, refl}
use mathlib.Core.Bool.{Bool, true, false}
use mathlib.Core.List.{List}
use kitsune.Prelude.Tests.{if◌then◌else◌}

-- `other_with` carries the values that a message of the source prints.
pub data K2Error : Type 0 where
  other : String → K2Error
  other_with : String → List ℕ → K2Error
  -- `K2GossipError::PeerBehaviorError` of crates/gossip/src/error.rs
  peer_behavior : String → K2Error

pub data Outcome {ℓ} (A : Type ℓ) : Type ℓ where
  ok : A → Outcome A
  err : K2Error → Outcome A
  panic : Outcome A

infixl 5 ◌>>=◌ ◌>>◌
abbrev pub ◌>>=◌ {ℓ κ} : {A : Type ℓ} {B : Type κ} → Outcome A → (A → Outcome B) → Outcome B
panic >>= next = panic
err e >>= next = err e
ok a >>= next = next a

abbrev pub ◌>>◌ {ℓ κ} : {A : Type ℓ} {B : Type κ} → Outcome A → Outcome B → Outcome B
first >> second = first >>= λ _. second

-- An early `return Err(..)`.
abbrev pub fail_if : Bool → K2Error → Outcome (Unit {0})
fail_if true e = err e
fail_if false e = ok tt

-- A bind that succeeds has succeeded in both of its parts.
pub >>=-eq-ok {ℓ κ} :
    {A : Type ℓ} {B : Type κ} (r : Outcome A) (next : A → Outcome B) {out : B}
    → (r >>= next) ≡ ok out
    → (mid : A) × (r ≡ ok mid) × (next mid ≡ ok out)
>>=-eq-ok panic next h = cc
>>=-eq-ok (err e) next h = cc
>>=-eq-ok (ok mid) next h = (mid, refl, h)

pub ok-injective {ℓ} : {A : Type ℓ} {a b : A} → ok a ≡ ok b → a ≡ b
ok-injective h = cc

-- What is returned, if anything is, has a property.
abbrev pub Ensures {ℓ κ} : {A : Type ℓ} → (A → Type κ) → Outcome A → Type κ
Ensures P (ok a) = P a
Ensures P (err e) = Unit
Ensures P panic = Unit

pub Ensures-ok {ℓ κ} :
    {A : Type ℓ} (P : A → Type κ) {r : Outcome A} {a : A} → Ensures P r → r ≡ ok a → P a
Ensures-ok P h e = rw (e) at h

pub >>=-Ensures {ℓ κ ι} :
    {A : Type ℓ} {B : Type κ} (P : B → Type ι) (r : Outcome A) (next : A → Outcome B)
    → ((a : A) → r ≡ ok a → Ensures P (next a))
    → Ensures P (r >>= next)
>>=-Ensures P panic next h = tt
>>=-Ensures P (err e) next h = tt
>>=-Ensures P (ok a) next h = h a refl

pub elim-Ensures {ℓ κ} :
    {A : Type ℓ} (P : A → Type κ) (b : Bool) (r r' : Outcome A)
    → Ensures P r
    → Ensures P r'
    → Ensures P (elim b [ true ↦ r | false ↦ r' ])
elim-Ensures P true r r' h h' = h
elim-Ensures P false r r' h h' = h'

pub if-Ensures {ℓ κ} :
    {A : Type ℓ} (P : A → Type κ) (b : Bool) (r r' : Outcome A)
    → Ensures P r
    → Ensures P r'
    → Ensures P (if b then r else r')
if-Ensures P true r r' h h' = h
if-Ensures P false r r' h h' = h'
