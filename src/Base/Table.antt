-- ===== src/Base/Table.antt =====
-- A database table: its rows in the order of insertion, with the primary key read by `key`.
use Prim.Native.Nat.{ℕ}
use mathlib.Core.Path.{◌≡◌, refl, subst}
use mathlib.Core.Logic.{◌≢◌, inl, inr}
use mathlib.Core.Bool.{Bool, true}
use mathlib.Core.Option.{Option, none, some}
use mathlib.Core.List.{List, [], ◌∷◌, ◌++◌, map}
use mathlib.Core.Option
use native.Mathlib.Omega.{arith}
use wes.Base.Tests.{◌==◌, if◌then◌else◌, Bool-cases}
use wes.Base.Lists.{length, All}

-- `db.scalar(select(...).where(p))` with no order: the first row that passes.
abbrev pub first : {A : Type 0} → (A → Bool) → List A → Option A
first p [] = none
first p (r ∷ t) = if p r then some r else first p t

-- `UPDATE ... WHERE p`: every row that passes is written.
abbrev pub update_where : {A : Type 0} → (A → Bool) → (A → A) → List A → List A
update_where p f [] = []
update_where p f (r ∷ t) = (if p r then f r else r) ∷ update_where p f t

module _ {A : Type 0} (key : A → ℕ) where
  -- `db.get(Model, k)`.
  abbrev pub find : ℕ → List A → Option A
  find k = first (λ r. key r == k)

  -- A write to the attributes of the row that `db.get` found.
  abbrev pub modify : ℕ → (A → A) → List A → List A
  modify k f [] = []
  modify k f (r ∷ t) = if key r == k then f r ∷ t else r ∷ modify k f t

  -- `db.delete` of the row that `db.get` found.
  abbrev pub delete : ℕ → List A → List A
  delete k [] = []
  delete k (r ∷ t) = if key r == k then t else r ∷ delete k t

module _ {A : Type 0} (p : A → Bool) (f : A → A) where
  pub length-update_where : (t : List A) → length (update_where p f t) ≡ length t
  length-update_where [] = refl
  length-update_where (r ∷ t) = ground (arith, length-update_where t)

  -- What holds of the rows before gives what holds after: of those kept, and of those written.
  pub update_where-All_to :
      (P Q : A → Type 0)
      → ((r : A) → P r → Q r)
      → ((r : A) → p r ≡ true → P r → Q (f r))
      → (t : List A) → All P t
      → All Q (update_where p f t)
  update_where-All_to P Q k h [] a = tt
  update_where-All_to P Q k h (r ∷ t) a = elim (Bool-cases (p r)) [
    | inl e ↦ rw e (h r e a.0, update_where-All_to P Q k h t a.1)
    | inr e ↦ rw e (k r a.0, update_where-All_to P Q k h t a.1)
  ]

module _ {A : Type 0} (key : A → ℕ) (f : A → A) (same : (r : A) → key (f r) ≡ key r) where
  pub find-modify_self :
      (k : ℕ) (t : List A) → find key k (modify key k f t) ≡ Option.map f (find key k t)
  find-modify_self k [] = refl
  find-modify_self k (r ∷ t) = ground (arith, same r, find-modify_self k t)

  pub find-modify_ne : (j k : ℕ) (t : List A) → j ≢ k → find key j (modify key k f t) ≡ find key j t
  find-modify_ne j k [] h = refl
  find-modify_ne j k (r ∷ t) h = ground (arith, same r, find-modify_ne j k t h)

  pub keys-modify : (k : ℕ) (t : List A) → map key (modify key k f t) ≡ map key t
  keys-modify k [] = refl
  keys-modify k (r ∷ t) = ground (arith, same r, keys-modify k t)

pub some_inj : {A : Type 0} (a b : A) → some a ≡ some b → a ≡ b
some_inj a b h = cc

module _ {A : Type 0} (key : A → ℕ) where
  pub key_of_find : (k : ℕ) (r : A) (t : List A) → find key k t ≡ some r → key r ≡ k
  key_of_find k r [] h = cc
  key_of_find k r (x ∷ t) h = ground (arith, key_of_find k r t)

  pub length-modify : (k : ℕ) (f : A → A) (t : List A) → length (modify key k f t) ≡ length t
  length-modify k f [] = refl
  length-modify k f (r ∷ t) = ground (arith, length-modify k f t)

  pub find-append :
      (k : ℕ) (t : List A) (r : A)
      → find key k (t ++ r ∷ [])
        ≡ elim (find key k t) [ some s ↦ some s | none ↦ if key r == k then some r else none ]
  find-append k [] r = refl
  find-append k (x ∷ t) r = ground (arith, find-append k t r)

module _ {A : Type 0} (key : A → ℕ) (P : A → Type 0) where
  pub All-find : (k : ℕ) (r : A) (t : List A) → All P t → find key k t ≡ some r → P r
  All-find k r [] a h = cc
  All-find k r (x ∷ t) a h = elim (Bool-cases (key x == k)) [
    | inl e ↦ subst P (some_inj x r (rw e at h)) a.0
    | inr e ↦ All-find k r t a.1 (rw e at h)
  ]

pub All-weaken :
    {A : Type 0} (P Q : A → Type 0) → ((r : A) → P r → Q r) → (t : List A) → All P t → All Q t
All-weaken P Q kept [] a = tt
All-weaken P Q kept (x ∷ t) a = (kept x a.0, All-weaken P Q kept t a.1)

module _ {A : Type 0} (key : A → ℕ) (P Q : A → Type 0) (kept : (r : A) → P r → Q r) where
  pub modify-All_to :
      (k : ℕ) (f : A → A) (t : List A)
      → ((r : A) → find key k t ≡ some r → P r → Q (f r))
      → All P t
      → All Q (modify key k f t)
  modify-All_to k f [] h a = tt
  modify-All_to k f (x ∷ t) h a = elim (Bool-cases (key x == k)) [
    | inl e ↦ rw e (h x (rw e) a.0, All-weaken P Q kept t a.1)
    | inr e ↦ rw e (kept x a.0, modify-All_to k f t (λ r q. h r (rw e q)) a.1)
  ]

-- A write keeps what holds of every row, if it keeps it of the row that is found.
pub modify-All :
    {A : Type 0} (key : A → ℕ) (P : A → Type 0) (k : ℕ) (f : A → A) (t : List A)
    → ((r : A) → find key k t ≡ some r → P r → P (f r))
    → All P t
    → All P (modify key k f t)
modify-All key P = modify-All_to key P P (λ r h. h)

pub update_where-All :
    {A : Type 0} (p : A → Bool) (f : A → A) (P : A → Type 0)
    → ((r : A) → p r ≡ true → P r → P (f r))
    → (t : List A) → All P t
    → All P (update_where p f t)
update_where-All p f P = update_where-All_to p f P P (λ r h. h)
