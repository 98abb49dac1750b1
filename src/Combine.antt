-- ===== src/Combine.antt =====
-- Combined hashes, crates/dht/src/combine.rs. `bytes::Bytes` is a list of byte values.
pub mod Xor
pub mod Laws
use Prim.Native.Nat.{bit_xor}
use kitsune.Prelude.{
  ℕ, Bool, true, false, ◌&&◌, not, List, [], ◌∷◌, length, replicate, ◌==◌, if◌then◌else◌,
}
use kitsune.Prelude.Outcome.{Outcome, ok, panic, ◌>>=◌}

abbrev pub Bytes : Type 0
Bytes = List ℕ

abbrev pub is_empty : Bytes → Bool
is_empty [] = true
is_empty (b ∷ bs) = false

-- The loop over `into.iter_mut().zip(other.iter())`.
unfoldable pub xor_into : Bytes → Bytes → Bytes
xor_into [] other = []
xor_into (a ∷ into) [] = a ∷ into
xor_into (a ∷ into) (b ∷ other) = bit_xor a b ∷ xor_into into other

unfoldable pub combine_hashes : Bytes → Bytes → Outcome Bytes
combine_hashes into other =
    if is_empty into && not (is_empty other)
    then ok other
    else if not (length into == length other)
    then panic
    else ok (xor_into into other)

-- `for hash in hashes`
unfoldable pub combine_from : Bytes → List Bytes → Outcome Bytes
combine_from out [] = ok out
combine_from out (hash ∷ hashes) = combine_hashes out hash >>= λ o. combine_from o hashes

unfoldable pub combine_op_hashes : List Bytes → Outcome Bytes
combine_op_hashes [] = ok []
combine_op_hashes (first ∷ hashes) = combine_from (replicate (length first) 0) (first ∷ hashes)
