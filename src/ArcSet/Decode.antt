-- ===== src/ArcSet/Decode.antt =====
-- `decode` of crates/dht/src/arc_set.rs: the sectors of 16 words.
use Prim.Native.Nat.{bit_and}
use mathlib.Core.Path.{subst}
use native.Mathlib.Nat.{one-le-pow}
use native.Mathlib.Decide.{ℕ_discrete}
use kitsune.Prelude.{
  ℕ, zero, suc, ◌+◌, ◌-◌, ◌*◌, ◌/◌, ◌%◌, ◌^◌, ◌≤◌, ◌<◌, Bool, true, false, ◌&&◌, ◌||◌, not, List,
  [], ◌∷◌, length, get_or, leb, ◌==◌, ==_iff, if◌then◌else◌, ◌≡◌, refl, ap, ◌∙◌, sym, ◌≢◌, arith,
  inl, inr, Bool-cases,
}
use kitsune.Prelude.Bits.{bit_at, bit_and-pow, bit_at-zero}
use kitsune.Prelude.Outcome.{ok, ok-injective}
use kitsune.Prelude.Sets.{
  member, insert, member-insert, IsSetBelow, insert-IsSetBelow, IsSetBelow-nil,
}
use kitsune.ArcSet.{ArcSet, IsArcSet, factor, decode_bits, decode_words, decode}
use kitsune.ArcSet.Encode.{sector_bit}

digit_test : (d p : ℕ) → d < 2 → 0 < p → not (d * p == 0) ≡ (d == 1)
digit_test zero p h q = ground arith
digit_test (suc zero) p h q = ground arith
digit_test (suc (suc d)) p h q = absurd (omega arith)

-- `value & (1 << bit) != 0`
bit_test : (w b : ℕ) → not (bit_and w (2 ^ b) == 0) ≡ (bit_at w b == 1)
bit_test w b =
    rw bit_and-pow (digit_test (bit_at w b) (2 ^ b) (omega arith) (one-le-pow b 2 (omega arith)))

member-if :
    (b : Bool) (x k : ℕ) (s : List ℕ)
    → member k (if b then insert x s else s) ≡ (b && x == k || member k s)
member-if true x k s = member-insert x k s
member-if false x k s = refl

bits_step :
    (f : ℕ → Bool) (m : Bool) (bit index k : ℕ)
    → bit < 32
    → ((f bit && index * 32 + bit == k || m)
        || (k / 32 == index && leb (bit + 1) (k % 32) && f (k % 32)))
      ≡ (m || (k / 32 == index && leb bit (k % 32) && f (k % 32)))
bits_step f m bit index k h = elim (ℕ_discrete bit (k % 32)) [
  | yes e ↦ rw (← e) (ground arith)
  | no ne ↦ ground arith
]

decode_bits-member :
    (n bit index value k : ℕ) (inner : List ℕ)
    → bit + n ≡ 32
    → member k (decode_bits n bit index value inner)
      ≡ (member k inner || (k / 32 == index && leb bit (k % 32) && bit_at value (k % 32) == 1))
unfolding decode_bits
decode_bits-member zero bit index value k inner h = ground arith
decode_bits-member (suc n) bit index value k inner h =
    decode_bits-member n (bit + 1) index value k _ (omega arith)
    ∙ ap (λ t. t || (k / 32 == index && leb (bit + 1) (k % 32) && bit_at value (k % 32) == 1))
        (member-if _ (index * 32 + bit) k inner)
    ∙ rw bit_test (bits_step (λ b. bit_at value b == 1) (member k inner) bit index k (omega arith))

suc-sub-one : (n : ℕ) → n ≡ suc n - 1
suc-sub-one n = omega arith

get_or-cons :
    (w : ℕ) (ws : List ℕ) (n : ℕ)
    → get_or (w ∷ ws) n 0 ≡ (if n == 0 then w else get_or ws (n - 1) 0)
get_or-cons w ws zero = refl
get_or-cons w ws (suc n) = ground (arith, ap (λ m. get_or ws m 0) (suc-sub-one n))

one_less : (q index : ℕ) → q - (index + 1) ≡ q - index - 1
one_less q index = omega arith

words_step :
    (f : ℕ → Bool) (m : Bool) (w : ℕ) (ws : List ℕ) (index k : ℕ)
    → ((m || (k / 32 == index && leb 0 (k % 32) && f w))
        || (leb (index + 1) (k / 32) && f (get_or ws (k / 32 - (index + 1)) 0)))
      ≡ (m || (leb index (k / 32) && f (get_or (w ∷ ws) (k / 32 - index) 0)))
words_step f m w ws index k =
    ground
      (arith, get_or-cons w ws (k / 32 - index), ap (λ n. get_or ws n 0) (one_less (k / 32) index))

decode_words-member :
    (ws : List ℕ) (index k : ℕ) (inner : List ℕ)
    → member k (decode_words ws index inner) ≡ (
        member k inner
        || (leb index (k / 32) && bit_at (get_or ws (k / 32 - index) 0) (k % 32) == 1))
unfolding decode_words
decode_words-member [] index k inner = ground (arith, bit_at-zero (k % 32))
decode_words-member (w ∷ ws) index k inner =
    decode_words-member ws (index + 1) k _
    ∙ ap
        (λ t.
          t
          || (leb (index + 1) (k / 32)
              && bit_at (get_or ws (k / 32 - (index + 1)) 0) (k % 32) == 1))
        (decode_bits-member 32 0 index w k inner refl)
    ∙ words_step (λ v. bit_at v (k % 32) == 1) (member k inner) w ws index k

if-IsSetBelow :
    (b : Bool) (x : ℕ) (s : List ℕ)
    → x < factor
    → IsSetBelow factor s
    → IsSetBelow factor (if b then insert x s else s)
if-IsSetBelow true x s h v = insert-IsSetBelow factor x s h v
if-IsSetBelow false x s h v = v

decode_bits-IsSetBelow :
    (n bit index value : ℕ) (inner : List ℕ)
    → bit + n ≡ 32
    → index < 16
    → IsSetBelow factor inner
    → IsSetBelow factor (decode_bits n bit index value inner)
unfolding decode_bits
decode_bits-IsSetBelow zero bit index value inner h i v = v
decode_bits-IsSetBelow (suc n) bit index value inner h i v =
    decode_bits-IsSetBelow n (bit + 1) index value _ (omega arith) i
      (if-IsSetBelow _ (index * 32 + bit) inner (omega arith) v)

decode_words-IsSetBelow :
    (ws : List ℕ) (index : ℕ) (inner : List ℕ)
    → index + length ws ≤ 16
    → IsSetBelow factor inner
    → IsSetBelow factor (decode_words ws index inner)
unfolding decode_words
decode_words-IsSetBelow [] index inner h v = v
decode_words-IsSetBelow (w ∷ ws) index inner h v =
    decode_words-IsSetBelow ws (index + 1) _ (omega arith)
      (decode_bits-IsSetBelow 32 0 index w inner refl (omega arith) v)

pub decode-ok :
    (words : List ℕ)
    → length words ≡ 16
    → decode words ≡ ok (record { inner = decode_words words 0 [] })
unfolding decode
decode-ok words h = rw h

decode_refused : (words : List ℕ) (s : ArcSet) → (length words == 16) ≡ false → decode words ≢ ok s
unfolding decode
decode_refused words s p h = ground arith

-- What `decode` accepts holds sector indices below 512, none twice, whatever the words are.
pub decode-IsArcSet : (words : List ℕ) {s : ArcSet} → decode words ≡ ok s → IsArcSet s
decode-IsArcSet words {s} h = elim (Bool-cases (length words == 16)) [
  | inl p ↦
      let l : length words ≡ 16 = (==_iff _ _).0 p in
      subst IsArcSet (ok-injective (sym (decode-ok words l) ∙ h))
        (decode_words-IsSetBelow words 0 [] (omega arith) (IsSetBelow-nil factor))
  | inr p ↦ absurd (decode_refused words s p h)
]

sub_zero : (n : ℕ) → n - 0 ≡ n
sub_zero n = omega arith

pub decode_words-bits :
    (words : List ℕ) (k : ℕ) → member k (decode_words words 0 []) ≡ (sector_bit words k == 1)
unfolding member
decode_words-bits words k =
    decode_words-member words 0 k []
    ∙ ground (arith, ap (λ i. bit_at (get_or words i 0) (k % 32)) (sub_zero (k / 32)))
