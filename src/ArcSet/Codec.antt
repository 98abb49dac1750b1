-- ===== src/ArcSet/Codec.antt =====
-- The round trip of `encode` and `decode` (crates/dht/src/arc_set.rs).
use kitsune.Prelude.{ℕ, Bool, List, [], ◌==◌, if◌then◌else◌, ◌≡◌, ap, ◌∙◌, sym, arith}
use kitsune.Prelude.Outcome.{ok, ok-injective}
use kitsune.Prelude.Sets.{member, IsSetBelow, count-ext}
use kitsune.ArcSet.{
  ArcSet, IsArcSet, factor, encode, decode_words, decode, includes_sector_index,
  covered_sector_count,
}
use kitsune.ArcSet.Encode.{sector_bit, encode-bits}
use kitsune.ArcSet.Decode.{decode-ok, decode-IsArcSet, decode_words-bits}

digit_of_if : (b : Bool) (d : ℕ) → d ≡ (if b then 1 else 0) → (d == 1) ≡ b
digit_of_if b d h = ground arith

module _ (s : ArcSet) (v : IsArcSet s) where
  abbrev encoded : List ℕ
  encoded = (encode-bits s v 0).0

  member-decoded : (k : ℕ) → member k (decode_words encoded 0 []) ≡ member k s.inner
  member-decoded k =
      let (words, e, l, b) = encode-bits s v k in
      let same : encoded ≡ words = ok-injective (sym (encode-bits s v 0).1 ∙ e) in
      decode_words-bits encoded k
      ∙ digit_of_if (member k s.inner) _ (ap (λ w. sector_bit w k) same ∙ b)

  decoded : ArcSet
  decoded = record { inner = decode_words encoded 0 [] }

  decoded-IsArcSet : IsArcSet decoded
  unfolding decoded
  decoded-IsArcSet = decode-IsArcSet encoded (decode-ok encoded (encode-bits s v 0).2)

  count-decoded : covered_sector_count decoded ≡ covered_sector_count s
  unfolding covered_sector_count decoded
  count-decoded =
      let w : IsSetBelow factor (decode_words encoded 0 []) = decoded-IsArcSet in
      w.distinct ∙ count-ext factor _ s.inner (λ k h. member-decoded k) ∙ sym v.distinct

-- Encoding a set of sector indices never panics and gives 16 words; decoding those gives a set that
-- includes the same sectors, and as many.
pub decode-encode :
    (s : ArcSet) (k : ℕ)
    → IsArcSet s
    → (words : List ℕ) × (encode s ≡ ok words)
      × (t : ArcSet) × (decode words ≡ ok t)
      × (includes_sector_index t k ≡ includes_sector_index s k)
      × (covered_sector_count t ≡ covered_sector_count s)
unfolding decoded includes_sector_index
decode-encode s k v = (
  encoded s v,
  (encode-bits s v 0).1,
  decoded s v,
  decode-ok (encoded s v) (encode-bits s v 0).2,
  member-decoded s v k,
  count-decoded s v,
)
