-- ===== src/Tests/Combined.antt =====
-- Combined hashes of crates/dht/src/combine.rs.
use mathlib.Core.List.Perm
use kitsune.Prelude.{◌≡◌, [], ◌∷◌, refl, arith}
use kitsune.Prelude.Outcome.{ok, ◌>>=◌}
use kitsune.Combine.{Bytes, combine_hashes, combine_op_hashes}
use kitsune.Combine.Laws.{combine_op_hashes-perm, combine_op_hashes-snoc, combine_hashes_twice}

abbrev first_hash : Bytes
first_hash = 5 ∷ 255 ∷ []

abbrev second_hash : Bytes
second_hash = 3 ∷ 15 ∷ []

combine_op_hashes-perm_example :
    combine_op_hashes (first_hash ∷ second_hash ∷ [])
    ≡ combine_op_hashes (second_hash ∷ first_hash ∷ [])
combine_op_hashes-perm_example =
    combine_op_hashes-perm 2 (omega arith) (first_hash ∷ second_hash ∷ [])
      (second_hash ∷ first_hash ∷ []) (refl, (refl, tt)) (refl, (refl, tt))
      (Perm.swap second_hash first_hash [])

combine_op_hashes-snoc_example :
    (combine_op_hashes (first_hash ∷ []) >>= λ c. combine_hashes c second_hash)
    ≡ combine_op_hashes (first_hash ∷ second_hash ∷ [])
combine_op_hashes-snoc_example =
    combine_op_hashes-snoc 2 (omega arith) (first_hash ∷ []) second_hash (refl, tt) refl

combine_hashes_twice_example :
    (combine_hashes first_hash second_hash >>= λ d. combine_hashes d second_hash) ≡ ok first_hash
combine_hashes_twice_example = combine_hashes_twice 2 (omega arith) first_hash second_hash refl refl
