-- ===== src/Base/Rows.antt =====
-- Tables whose primary keys are unique, and what a search finds after a write.
use Prim.Native.Nat.{ℕ}
use mathlib.Core.Path.{◌≡◌, refl, subst, ap}
use mathlib.Core.Logic.{inl, inr}
use mathlib.Core.Bool.{Bool, true, false}
use mathlib.Core.Option.{none, some}
use mathlib.Core.List.{List, [], ◌∷◌, ◌++◌}
use native.Mathlib.Omega.{arith}
use wes.Base.Tests.{◌==◌, if◌then◌else◌, Bool-cases}
use wes.Base.Lists.{All}
use wes.Base.Table.{first, find, modify, modify-All, update_where, some_inj}

module _ {A : Type 0} (P : A → Type 0) (p : A → Bool) where
  -- The row that `first` returns passes the test, and has what every row has.
  pub first-All : (r : A) (t : List A) → All P t → first p t ≡ some r → (p r ≡ true) × P r
  first-All r [] a h = cc
  first-All r (x ∷ t) a h = elim (Bool-cases (p x)) [
    | inl e ↦ subst (λ y. (p y ≡ true) × P y) (some_inj x r (rw e at h)) (e, a.0)
    | inr e ↦ first-All r t a.1 (rw e at h)
  ]

module _ {A : Type 0} (p : A → Bool) where
  pub first_passes : (r : A) (t : List A) → first p t ≡ some r → p r ≡ true
  first_passes r [] h = cc
  first_passes r (x ∷ t) h = ground (arith, first_passes r t)

  pub first-append : (t u : List A) (r : A) → first p t ≡ some r → first p (t ++ u) ≡ some r
  first-append [] u r h = cc
  first-append (x ∷ t) u r h = ground (arith, first-append t u r)

  pub first-append_none : (t u : List A) → first p t ≡ none → first p (t ++ u) ≡ first p u
  first-append_none [] u h = refl
  first-append_none (x ∷ t) u h = ground (arith, first-append_none t u)

  pub first-update_where :
      (q : A → Bool) (f : A → A) (t : List A) (r : A)
      → ((x : A) → p (if q x then f x else x) ≡ p x)
      → first p t ≡ some r
      → first p (update_where q f t) ≡ some (if q r then f r else r)
  first-update_where q f [] r k h = cc
  first-update_where q f (x ∷ t) r k h = elim (Bool-cases (p x)) [
    | inl e ↦
        rw (k x, e)
          (let same : x ≡ r = some_inj x r (rw e at h) in
            ap (λ (y : A). some (if q y then f y else y)) same)
    | inr e ↦ rw (k x, e) (first-update_where q f t r k (rw e at h))
  ]

module _ {A : Type 0} (key : A → ℕ) where
  abbrev pub Differs : ℕ → A → Type 0
  Differs k r = (key r == k) ≡ false

  -- The primary key names one row.
  abbrev pub UniqueKeys : List A → Type 0
  UniqueKeys [] = Unit
  UniqueKeys (r ∷ t) = All (Differs (key r)) t × UniqueKeys t

module _ {A : Type 0} (key : A → ℕ) (f : A → A) (same : (r : A) → key (f r) ≡ key r) where
  pub modify-Differs :
      (j k : ℕ) (t : List A) → All (Differs key j) t → All (Differs key j) (modify key k f t)
  modify-Differs j k t a = modify-All key (Differs key j) k f t (λ r e d. rw (same r) d) a

  pub modify-UniqueKeys :
      (k : ℕ) (t : List A) → UniqueKeys key t → UniqueKeys key (modify key k f t)
  modify-UniqueKeys k [] u = tt
  modify-UniqueKeys k (x ∷ t) u = elim (Bool-cases (key x == k)) [
    | inl e ↦ rw (e, UniqueKeys, same x) u
    | inr e ↦ rw (e, UniqueKeys) (modify-Differs (key x) k t u.0, modify-UniqueKeys k t u.1)
  ]

  -- A write by the primary key reaches the row that a test found, if the test still passes.
  pub first-modify :
      (p : A → Bool) (r : A) (t : List A)
      → UniqueKeys key t
      → first p t ≡ some r
      → p (f r) ≡ true
      → first p (modify key (key r) f t) ≡ some (f r)
  first-modify p r [] u h k = cc
  first-modify p r (x ∷ t) u h k = elim (Bool-cases (p x)) [
    | inl e ↦ let same' : x ≡ r = some_inj x r (rw e at h) in ground arith
    | inr e ↦
        let h' : first p t ≡ some r = rw e at h in
        let d : Differs key (key x) r = (first-All (Differs key (key x)) p r t u.0 h').1 in
        ground (arith, first-modify p r t u.1 h' k)
  ]

-- Where primary keys are unique, a row that a test found is the one that its key finds.
pub find_of_first :
    {A : Type 0} (key : A → ℕ) (p : A → Bool) (r : A) (t : List A)
    → UniqueKeys key t
    → first p t ≡ some r
    → find key (key r) t ≡ some r
find_of_first key p r [] u h = cc
find_of_first key p r (x ∷ t) u h = elim (Bool-cases (p x)) [
  | inl e ↦ let same : x ≡ r = some_inj x r (rw e at h) in ground arith
  | inr e ↦
      let h' : first p t ≡ some r = rw e at h in
      let d : Differs key (key x) r = (first-All (Differs key (key x)) p r t u.0 h').1 in
      ground (arith, find_of_first key p r t u.1 h')
]
