-- ===== src/Knowledge/Slugs.antt =====
-- What a slug looks like (`slugify` of backend/app/services/knowledge.py).
use wes.Base.{
  ℕ, ◌≡◌, refl, Bool, true, false, ◌&&◌, ◌||◌, not, [], ◌∷◌, ◌==◌, Text, is_nonempty, All,
  Bool-cases, inl, inr,
}
use wes.Knowledge.Slug.{is_word, dash, sub_runs, strip_start, strip_end, or_document, slugify}

-- A lower-case letter, a digit or a dash.
abbrev pub IsSlugChar : ℕ → Type 0
IsSlugChar c = (is_word c || c == dash) ≡ true

sub_runs-IsSlugChar : (replaced : Bool) (t : Text) → All IsSlugChar (sub_runs replaced t)
sub_runs-IsSlugChar b [] = tt
sub_runs-IsSlugChar b (c ∷ t) = elim (Bool-cases (is_word c)) [
  | inl e ↦ rw e (rw e refl, sub_runs-IsSlugChar false t)
  | inr e ↦ elim (Bool-cases b) [
    | inl q ↦ rw (e, q) (sub_runs-IsSlugChar true t)
    | inr q ↦ rw (e, q) (refl, sub_runs-IsSlugChar true t)
  ]
]

strip_start-IsSlugChar : (t : Text) → All IsSlugChar t → All IsSlugChar (strip_start t)
strip_start-IsSlugChar [] a = tt
strip_start-IsSlugChar (c ∷ t) a = elim (Bool-cases (c == dash)) [
  | inl e ↦ rw e (strip_start-IsSlugChar t a.1)
  | inr e ↦ rw e a
]

strip_end-IsSlugChar : (t : Text) → All IsSlugChar t → All IsSlugChar (strip_end t)
strip_end-IsSlugChar [] a = tt
strip_end-IsSlugChar (c ∷ t) a = elim (Bool-cases (c == dash && not (is_nonempty (strip_end t)))) [
  | inl e ↦ rw e tt
  | inr e ↦ rw e (a.0, strip_end-IsSlugChar t a.1)
]

or_document-IsSlugChar :
    (t : Text)
    → All IsSlugChar t
    → (is_nonempty (or_document t) ≡ true) × All IsSlugChar (or_document t)
or_document-IsSlugChar [] a =
    (refl, (refl, (refl, (refl, (refl, (refl, (refl, (refl, (refl, tt)))))))))
or_document-IsSlugChar (c ∷ t) a = (refl, a)

-- Whatever the text, its slug is not empty and has only lower-case letters, digits and dashes.
pub slugify-IsSlugChar :
    (lower : Text → Text) (text : Text)
    → (is_nonempty (slugify lower text) ≡ true) × All IsSlugChar (slugify lower text)
unfolding slugify
slugify-IsSlugChar lower text =
    or_document-IsSlugChar _
      (strip_end-IsSlugChar _ (strip_start-IsSlugChar _ (sub_runs-IsSlugChar false (lower text))))
