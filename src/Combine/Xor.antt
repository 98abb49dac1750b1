-- ===== src/Combine/Xor.antt =====
-- Exclusive or on lists of bytes of one length.
use Prim.Native.Nat.{bit_xor}
use mathlib.Core.Path.{ap₂}
use kitsune.Prelude.{ℕ, zero, suc, [], ◌∷◌, length, replicate, ◌≡◌, refl, ap, sym, ◌∙◌, arith}
use kitsune.Prelude.Bits.{bit_xor-zero, bit_xor_self, bit_xor_comm, bit_xor_assoc}
use kitsune.Combine.{Bytes, xor_into}

-- Exclusive or as far as both lists go: associative and commutative at every length.
abbrev pub xor_both : Bytes → Bytes → Bytes
xor_both [] bs = []
xor_both (a ∷ as') [] = []
xor_both (a ∷ as') (b ∷ bs) = bit_xor a b ∷ xor_both as' bs

pub xor_into-eq-both : (a b : Bytes) → length a ≡ length b → xor_into a b ≡ xor_both a b
unfolding xor_into
xor_into-eq-both [] b h = refl
xor_into-eq-both (x ∷ a) [] h = absurd (omega arith)
xor_into-eq-both (x ∷ a) (y ∷ b) h = ap (λ t. bit_xor x y ∷ t) (xor_into-eq-both a b (omega arith))

pub length-xor_both : (a b : Bytes) → length a ≡ length b → length (xor_both a b) ≡ length a
length-xor_both [] b h = refl
length-xor_both (x ∷ a) [] h = absurd (omega arith)
length-xor_both (x ∷ a) (y ∷ b) h = ap suc (length-xor_both a b (omega arith))

pub xor_both_comm : (a b : Bytes) → xor_both a b ≡ xor_both b a
xor_both_comm [] [] = refl
xor_both_comm [] (y ∷ b) = refl
xor_both_comm (x ∷ a) [] = refl
xor_both_comm (x ∷ a) (y ∷ b) = ap₂ ◌∷◌ (bit_xor_comm x y) (xor_both_comm a b)

pub xor_both_assoc : (a b c : Bytes) → xor_both (xor_both a b) c ≡ xor_both a (xor_both b c)
xor_both_assoc [] b c = refl
xor_both_assoc (x ∷ a) [] c = refl
xor_both_assoc (x ∷ a) (y ∷ b) [] = refl
xor_both_assoc (x ∷ a) (y ∷ b) (z ∷ c) = ap₂ ◌∷◌ (bit_xor_assoc x y z) (xor_both_assoc a b c)

pub xor_both_left_comm : (a b c : Bytes) → xor_both a (xor_both b c) ≡ xor_both b (xor_both a c)
xor_both_left_comm a b c =
    sym (xor_both_assoc a b c) ∙ ap (λ t. xor_both t c) (xor_both_comm a b) ∙ xor_both_assoc b a c

pub xor_both-zeros : (a : Bytes) (n : ℕ) → length a ≡ n → xor_both a (replicate n 0) ≡ a
xor_both-zeros [] n h = refl
xor_both-zeros (x ∷ a) zero h = absurd (omega arith)
xor_both-zeros (x ∷ a) (suc n) h = ap₂ ◌∷◌ (bit_xor-zero x) (xor_both-zeros a n (omega arith))

pub xor_both_self : (a : Bytes) → xor_both a a ≡ replicate (length a) 0
xor_both_self [] = refl
xor_both_self (x ∷ a) = ap₂ ◌∷◌ (bit_xor_self x) (xor_both_self a)
