-- ===== src/Platform/Chain.antt =====
-- The order in which providers are tried.
use wes.Base.{
  ℤ, pos, negsuc, ltb_ℤ, Bool, true, false, not, ◌&&◌, ◌||◌, List, [], ◌∷◌, ◌≡◌, inl, inr, refl,
  arith, keep, length, Bool-cases, ◌==◌, Text,
}
use wes.Platform.State.{AiProvider, PlatformDb}
use wes.Platform.Usage.{text_lt, sorts_before, insert, sort, is_other, chain}

text_lt_asym : (s t : Text) → text_lt s t ≡ true → text_lt t s ≡ false
text_lt_asym s [] h = cc
text_lt_asym [] (d ∷ t) h = refl
text_lt_asym (c ∷ s) (d ∷ t) h = ground (arith, text_lt_asym s t)

ltb_ℤ_asym : (a b : ℤ) → ltb_ℤ a b ≡ true → ltb_ℤ b a ≡ false
ltb_ℤ_asym (pos m) (pos n) h = ground arith
ltb_ℤ_asym (pos m) (negsuc n) h = ground arith
ltb_ℤ_asym (negsuc m) (pos n) h = ground arith
ltb_ℤ_asym (negsuc m) (negsuc n) h = ground arith

before_asym :
    (a b c d : Bool)
    → (a ≡ true → b ≡ false)
    → (c ≡ true → d ≡ false)
    → (a || (not b && c)) ≡ true
    → (b || (not a && d)) ≡ false
before_asym true true c d h k e = let bad : true ≡ false = h refl in cc
before_asym true false c d h k e = refl
before_asym false true c d h k e = cc
before_asym false false true d h k e = k refl
before_asym false false false d h k e = cc

sorts_before_asym : (p q : AiProvider) → sorts_before p q ≡ true → sorts_before q p ≡ false
sorts_before_asym p q h =
    before_asym (ltb_ℤ p.priority q.priority) (ltb_ℤ q.priority p.priority) (text_lt p.name q.name)
      (text_lt q.name p.name) (ltb_ℤ_asym p.priority q.priority) (text_lt_asym p.name q.name) h

-- No provider has a lower priority than the one before it, or the same and a lower name.
abbrev pub IsOrdered : List AiProvider → Type 0
IsOrdered [] = Unit
IsOrdered (p ∷ []) = Unit
IsOrdered (p ∷ q ∷ qs) = (sorts_before q p ≡ false) × IsOrdered (q ∷ qs)

insert-IsOrdered : (p : AiProvider) (qs : List AiProvider) → IsOrdered qs → IsOrdered (insert p qs)
insert-IsOrdered p [] h = tt
insert-IsOrdered p (q ∷ []) h = elim (Bool-cases (sorts_before q p)) [
  | inl e ↦ rw e (sorts_before_asym q p e, tt)
  | inr e ↦ rw e (e, tt)
]
insert-IsOrdered p (q ∷ r ∷ rs) h = elim (Bool-cases (sorts_before q p)) [
  | inl e ↦ elim (Bool-cases (sorts_before r p)) [
    | inl k ↦ rw (e, k) (h.0, (rw k at (insert-IsOrdered p (r ∷ rs) h.1)))
    | inr k ↦ rw (e, k) (sorts_before_asym q p e, (k, h.1))
  ]
  | inr e ↦ rw e (e, h)
]

sort-IsOrdered : (ps : List AiProvider) → IsOrdered (sort ps)
unfolding sort
sort-IsOrdered [] = tt
sort-IsOrdered (p ∷ ps) = insert-IsOrdered p (sort ps) (sort-IsOrdered ps)

module _ (test : AiProvider → Bool) where
  length-keep-insert :
      (p : AiProvider) (qs : List AiProvider)
      → length (keep test (insert p qs)) ≡ length (keep test (p ∷ qs))
  length-keep-insert p [] = refl
  length-keep-insert p (q ∷ qs) = ground (arith, length-keep-insert p qs)

  length-keep-sort : (ps : List AiProvider) → length (keep test (sort ps)) ≡ length (keep test ps)
  unfolding sort
  length-keep-sort [] = refl
  length-keep-sort (p ∷ ps) =
      rw (length-keep-insert p (sort ps)) (ground (arith, length-keep-sort ps))

  length-keep-keep :
      (other : AiProvider → Bool) (ps : List AiProvider)
      → length (keep test (keep other ps)) ≡ length (keep (λ p. test p && other p) ps)
  length-keep-keep other [] = refl
  length-keep-keep other (p ∷ ps) = ground (arith, length-keep-keep other ps)

-- The chain starts with the primary; after it the priorities do not fall, nor do the names of equal
-- priorities; and for every test, as many of the rest pass it as of the enabled providers with
-- another key than the primary's.
pub chain-IsOrdered :
    (primary : AiProvider) (s : PlatformDb)
    → (rest : List AiProvider) × (chain primary s ≡ primary ∷ rest)
      × IsOrdered rest
      × ((test : AiProvider → Bool)
          → length (keep test rest)
            ≡ length (
                keep
                  (λ (p : AiProvider). test p && (p.enabled && not (p.id == primary.id)))
                  s.providers))
unfolding chain
chain-IsOrdered primary s = (
  sort (keep (is_other primary) s.providers),
  refl,
  sort-IsOrdered (keep (is_other primary) s.providers),
  λ test. ground (
    arith,
    length-keep-sort test (keep (is_other primary) s.providers),
    length-keep-keep test (is_other primary) s.providers,
  ),
)
