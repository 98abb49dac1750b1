-- ===== src/Combine/Laws.antt =====
-- What a combined hash is (crates/dht/src/combine.rs): the exclusive or of the hashes, in any
-- order, all at once or one at a time.
use mathlib.Core.List.{foldr, Perm, nil≢cons, length-eq-zero_iff}
use mathlib.Core.List.Perm
use kitsune.Prelude.{
  ℕ, ◌<◌, List, [], ◌∷◌, ◌++◌, length, replicate, length-replicate, All, All-append, ◌≡◌, refl, ap,
  sym, ◌∙◌, arith,
}
use kitsune.Prelude.Outcome.{ok, ◌>>=◌}
use kitsune.Combine.{Bytes, combine_hashes, combine_from, combine_op_hashes}
use kitsune.Combine.Xor.{
  xor_both, xor_into-eq-both, length-xor_both, xor_both_comm, xor_both_assoc, xor_both_left_comm,
  xor_both-zeros, xor_both_self,
}

-- The exclusive or of a list of hashes of `n` bytes.
abbrev pub xor_all : ℕ → List Bytes → Bytes
xor_all n hashes = foldr xor_both (replicate n 0) hashes

abbrev pub HasLength : ℕ → Bytes → Type 0
HasLength n h = length h ≡ n

length-xor_all : (n : ℕ) (hs : List Bytes) → All (HasLength n) hs → length (xor_all n hs) ≡ n
length-xor_all n [] a = length-replicate n 0
length-xor_all n (h ∷ hs) a =
    length-xor_both h (xor_all n hs) (a.0 ∙ sym (length-xor_all n hs a.1)) ∙ a.0

xor_all-snoc :
    (n : ℕ) (hs : List Bytes) (h : Bytes)
    → length h ≡ n
    → xor_both (xor_all n hs) h ≡ xor_all n (hs ++ h ∷ [])
xor_all-snoc n [] h l = xor_both_comm (replicate n 0) h
xor_all-snoc n (g ∷ gs) h l =
    xor_both_assoc g (xor_all n gs) h ∙ ap (xor_both g) (xor_all-snoc n gs h l)

-- The first hash sets the combined hash.
combine-first :
    (h : Bytes) → 0 < length h → (combine_op_hashes [] >>= λ c. combine_hashes c h) ≡ ok h
unfolding combine_op_hashes combine_hashes
combine-first [] p = absurd (omega arith)
combine-first (x ∷ h) p = refl

not-perm-nil : {h : Bytes} {hs : List Bytes} → ¬ Perm (h ∷ hs) []
not-perm-nil {h} {hs} p = nil≢cons {x = h} (sym (length-eq-zero_iff.0 (Perm.length-eq p)))

Bytes-set : IsSet Bytes
Bytes-set = hlevel

module _ (n : ℕ) (pos : 0 < n) where
  combine_hashes-eq :
      (a b : Bytes) → length a ≡ n → length b ≡ n → combine_hashes a b ≡ ok (xor_both a b)
  unfolding combine_hashes
  combine_hashes-eq [] b p q = absurd (omega arith)
  combine_hashes-eq (x ∷ a) b p q = ground (arith, xor_into-eq-both (x ∷ a) b)

  combine_from-eq :
      (hs : List Bytes) (out : Bytes)
      → length out ≡ n
      → All (HasLength n) hs
      → combine_from out hs ≡ ok (xor_both out (xor_all n hs))
  unfolding combine_from
  combine_from-eq [] out p a = ap ok (sym (xor_both-zeros out n p))
  combine_from-eq (h ∷ hs) out p a =
      ap (λ r. r >>= λ o. combine_from o hs) (combine_hashes-eq out h p a.0)
      ∙ combine_from-eq hs (xor_both out h) (length-xor_both out h (p ∙ sym a.0) ∙ p) a.1
      ∙ ap ok (xor_both_assoc out h (xor_all n hs))

  -- Hashes of one length combine without a panic, to their exclusive or.
  pub combine_op_hashes-eq :
      (h : Bytes) (hs : List Bytes)
      → All (HasLength n) (h ∷ hs)
      → combine_op_hashes (h ∷ hs) ≡ ok (xor_all n (h ∷ hs))
  unfolding combine_op_hashes
  combine_op_hashes-eq h hs a =
      combine_from-eq (h ∷ hs) (replicate (length h) 0) (length-replicate (length h) 0 ∙ a.0) a
      ∙ ap ok (
          xor_both_comm (replicate (length h) 0) (xor_all n (h ∷ hs))
          ∙ xor_both-zeros (xor_all n (h ∷ hs)) (length h) (length-xor_all n (h ∷ hs) a ∙ sym a.0))

  pub combine_op_hashes-ok :
      (hs : List Bytes) → All (HasLength n) hs → (h : Bytes) × (combine_op_hashes hs ≡ ok h)
  unfolding combine_op_hashes
  combine_op_hashes-ok [] a = ([], refl)
  combine_op_hashes-ok (h ∷ hs) a = (xor_all n (h ∷ hs), combine_op_hashes-eq h hs a)

  -- The combined hash of hashes of one length does not depend on their order.
  pub combine_op_hashes-perm :
      (hs hs' : List Bytes)
      → All (HasLength n) hs
      → All (HasLength n) hs'
      → Perm hs hs'
      → combine_op_hashes hs ≡ combine_op_hashes hs'
  combine_op_hashes-perm [] [] a b p = refl
  combine_op_hashes-perm [] (h ∷ hs) a b p = absurd (not-perm-nil (Perm.symm p))
  combine_op_hashes-perm (h ∷ hs) [] a b p = absurd (not-perm-nil p)
  combine_op_hashes-perm (h ∷ hs) (g ∷ gs) a b p =
      combine_op_hashes-eq h hs a
      ∙ ap ok (Perm.foldr-eq Bytes-set xor_both xor_both_left_comm p (replicate n 0))
      ∙ sym (combine_op_hashes-eq g gs b)

  -- Combining one more hash into the combined hash of a list gives the combined hash of the longer
  -- list, also where the list was empty.
  pub combine_op_hashes-snoc :
      (hs : List Bytes) (h : Bytes)
      → All (HasLength n) hs
      → length h ≡ n
      → (combine_op_hashes hs >>= λ c. combine_hashes c h) ≡ combine_op_hashes (hs ++ h ∷ [])
  combine_op_hashes-snoc [] h a l =
      combine-first h (omega arith)
      ∙ ap ok (sym (xor_both-zeros h n l))
      ∙ sym (combine_op_hashes-eq h [] (l, tt))
  combine_op_hashes-snoc (g ∷ gs) h a l =
      ap (λ r. r >>= λ c. combine_hashes c h) (combine_op_hashes-eq g gs a)
      ∙ combine_hashes-eq (xor_all n (g ∷ gs)) h (length-xor_all n (g ∷ gs) a) l
      ∙ ap ok (xor_all-snoc n (g ∷ gs) h l)
      ∙ sym (
          combine_op_hashes-eq g (gs ++ h ∷ [])
            (a.0, All-append (HasLength n) gs (h ∷ []) a.1 (l, tt)))

  -- Combining the same hash twice takes it out again.
  pub combine_hashes_twice :
      (c h : Bytes)
      → length c ≡ n
      → length h ≡ n
      → (combine_hashes c h >>= λ d. combine_hashes d h) ≡ ok c
  combine_hashes_twice c h p q =
      ap (λ r. r >>= λ d. combine_hashes d h) (combine_hashes-eq c h p q)
      ∙ combine_hashes-eq (xor_both c h) h (length-xor_both c h (p ∙ sym q) ∙ p) q
      ∙ ap ok (
          xor_both_assoc c h h
          ∙ ap (xor_both c) (xor_both_self h)
          ∙ xor_both-zeros c (length h) (p ∙ sym q))
