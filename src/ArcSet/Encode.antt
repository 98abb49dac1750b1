-- ===== src/ArcSet/Encode.antt =====
-- `encode` of crates/dht/src/arc_set.rs: the bit set of 512 sectors in 16 words.
use Prim.Native.Nat.{bit_or}
use native.Mathlib.Decide.{ℕ_discrete}
use kitsune.Prelude.{
  ℕ, ◌/◌, ◌%◌, ◌^◌, ◌<◌, max, Bool, ◌||◌, List, [], ◌∷◌, length, All, get_or, set, replicate,
  length-set, get_or-set_self, get_or-set_ne, get_or-replicate, lt→ltb, ◌==◌, ==_iff, if◌then◌else◌,
  ◌≡◌, refl, ap, ◌∙◌, ◌≢◌, arith, inl, inr, Bool-cases,
}
use kitsune.Prelude.Bits.{bit_at, bit_at-or, bit_at-pow_self, bit_at-pow_ne, bit_at-zero}
use kitsune.Prelude.Outcome.{ok}
use kitsune.Prelude.Sets.{member}
use kitsune.ArcSet.{ArcSet, IsArcSet, factor, encode_sectors, encode}

-- Bit `j` of a list of words.
abbrev pub sector_bit : List ℕ → ℕ → ℕ
sector_bit out j = bit_at (get_or out (j / 32) 0) (j % 32)

bit_at-pow : (k j : ℕ) → bit_at (2 ^ k) j ≡ (if k == j then 1 else 0)
bit_at-pow k j = elim (Bool-cases (k == j)) [
  | inl e ↦ rw (e, ← (==_iff k j).0 e) (bit_at-pow_self k)
  | inr ne ↦ rw ne (bit_at-pow_ne k j (ground arith))
]

same_word :
    (d x j : ℕ)
    → d < 2
    → x / 32 ≡ j / 32
    → max d (if x % 32 == j % 32 then 1 else 0) ≡ (if x == j then 1 else d)
same_word d x j h e = ground arith

other_word : (d x j : ℕ) → x / 32 ≢ j / 32 → d ≡ (if x == j then 1 else d)
other_word d x j ne = ground arith

-- One round of `encode` sets the bit of its sector and leaves the others.
encode_round :
    (out : List ℕ) (x j : ℕ)
    → x / 32 < length out
    → sector_bit (set out (x / 32) (bit_or (get_or out (x / 32) 0) (2 ^ (x % 32)))) j
      ≡ (if x == j then 1 else sector_bit out j)
encode_round out x j h = elim (ℕ_discrete (x / 32) (j / 32)) [
  | yes e ↦
      rw (← e, get_or-set_self out (x / 32) _ 0 h, bit_at-or, bit_at-pow)
        (same_word (bit_at (get_or out (x / 32) 0) (j % 32)) x j (omega arith) e)
  | no ne ↦
      rw (get_or-set_ne out (bit_or (get_or out (x / 32) 0) (2 ^ (x % 32))) 0 ne)
        (other_word (sector_bit out j) x j ne)
]

encode_sectors-cons :
    (x : ℕ) (xs out : List ℕ)
    → x / 32 < length out
    → encode_sectors (x ∷ xs) out
      ≡ encode_sectors xs (set out (x / 32) (bit_or (get_or out (x / 32) 0) (2 ^ (x % 32))))
unfolding encode_sectors
encode_sectors-cons x xs out h = rw (lt→ltb _ _ h, encode_sectors)

if_or :
    (b c : Bool) (u v w : ℕ)
    → u ≡ (if c then 1 else v)
    → v ≡ (if b then 1 else w)
    → u ≡ (if b || c then 1 else w)
if_or b c u v w h k = ground arith

encode_sectors-bits :
    (l out : List ℕ) (j : ℕ)
    → length out ≡ 16
    → All (λ x. x < factor) l
    → (words : List ℕ) × (encode_sectors l out ≡ ok words)
      × (length words ≡ 16)
      × (sector_bit words j ≡ (if member j l then 1 else sector_bit out j))
unfolding encode_sectors member
encode_sectors-bits [] out j h a = (out, refl, h, refl)
encode_sectors-bits (x ∷ xs) out j h a =
    let i : x / 32 < length out = omega arith in
    let out' = set out (x / 32) (bit_or (get_or out (x / 32) 0) (2 ^ (x % 32))) in
    let (words, e, l, b) = encode_sectors-bits xs out' j (length-set out _ _ ∙ h) a.1 in
    (
      words,
      encode_sectors-cons x xs out i ∙ e,
      l,
      if_or (x == j) (member j xs) _ _ _ b (encode_round out x j i),
    )

blank_bit : (k : ℕ) → sector_bit (replicate 16 0) k ≡ 0
blank_bit k = rw (get_or-replicate {A = ℕ} 16 (k / 32) 0) (bit_at-zero (k % 32))

module _ (s : ArcSet) (v : IsArcSet s) where
  -- The words that `encode` writes do not depend on the sector `k` that is asked for.
  pub encode-bits :
      (k : ℕ)
      → (words : List ℕ) × (encode s ≡ ok words)
        × (length words ≡ 16)
        × (sector_bit words k ≡ (if member k s.inner then 1 else 0))
  unfolding encode
  encode-bits k =
      let (words, e, l, b) = encode_sectors-bits s.inner (replicate 16 0) k refl v.below in
      (words, e, l, b ∙ ap (λ (t : ℕ). if member k s.inner then 1 else t) (blank_bit k))
