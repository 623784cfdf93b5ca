-- ===== src/Base/Dicts.antt =====
-- Python's dict with texts as keys: the entries in the order of insertion.
use mathlib.Core.Path.{◌≡◌, refl, ◌∙◌, sym, subst, ap}
use mathlib.Core.Logic.{inl, inr}
use mathlib.Core.Bool.{true, false}
use mathlib.Core.Option.{Option, none, some}
use mathlib.Core.List.{List, [], ◌∷◌}
use wes.Base.Tests.{if◌then◌else◌, Bool-cases, Option-cases}
use wes.Base.Table.{some_inj}
use wes.Base.Texts.{Text, text_eq, text_eq_iff}

abbrev pub Dict : Type 0 → Type 0
Dict A = List (Text × A)

other_way : (j k : Text) → text_eq j k ≡ false → text_eq k j ≡ false
other_way j k h = elim (Bool-cases (text_eq k j)) [
  | inl e ↦
      let bad : true ≡ false = sym ((text_eq_iff j k).1 (sym ((text_eq_iff k j).0 e))) ∙ h in
      absurd (cc)
  | inr e ↦ e
]

module _ {A : Type 0} where
  -- `d.get(k)`
  abbrev pub lookup : Text → Dict A → Option A
  lookup k [] = none
  lookup k ((j, v) ∷ d) = if text_eq j k then some v else lookup k d

  -- `d[k] = v`
  abbrev pub put : Text → A → Dict A → Dict A
  put k v [] = (k, v) ∷ []
  put k v ((j, w) ∷ d) = if text_eq j k then (j, v) ∷ d else (j, w) ∷ put k v d

  -- `d.update(e)`
  abbrev pub put_all : Dict A → Dict A → Dict A
  put_all d [] = d
  put_all d ((k, v) ∷ e) = put_all (put k v d) e

  abbrev pub put_if_none : Option A → Text → A → Dict A → Dict A
  put_if_none none k v d = put k v d
  put_if_none (some w) k v d = d

  -- `d.setdefault(k, v)`
  abbrev pub setdefault : Text → A → Dict A → Dict A
  setdefault k v d = put_if_none (lookup k d) k v d

  -- No key twice, as in every dict.
  abbrev pub Distinct : Dict A → Type 0
  Distinct [] = Unit
  Distinct ((k, v) ∷ d) = (lookup k d ≡ none) × Distinct d

  pub lookup-put_self : (k : Text) (v : A) (d : Dict A) → lookup k (put k v d) ≡ some v
  lookup-put_self k v [] = rw ((text_eq_iff k k).1 refl) refl
  lookup-put_self k v ((j, w) ∷ d) = elim (Bool-cases (text_eq j k)) [
    | inl e ↦ rw (e, e) refl
    | inr e ↦ rw (e, e) (lookup-put_self k v d)
  ]

  pub lookup-put_other :
      (j k : Text) (v : A) (d : Dict A) → text_eq j k ≡ false → lookup k (put j v d) ≡ lookup k d
  lookup-put_other j k v [] h = rw h refl
  lookup-put_other j k v ((i, w) ∷ d) h = elim (Bool-cases (text_eq i j)) [
    | inl e ↦
        let same : i ≡ j = (text_eq_iff i j).0 e in
        let off : text_eq i k ≡ false = subst (λ x. text_eq x k ≡ false) (sym same) h in
        rw (e, off) refl
    | inr e ↦ rw e (ap (λ r. if text_eq i k then some w else r) (lookup-put_other j k v d h))
  ]

  pub put-Distinct : (k : Text) (v : A) (d : Dict A) → Distinct d → Distinct (put k v d)
  put-Distinct k v [] h = (refl, tt)
  put-Distinct k v ((j, w) ∷ d) h = elim (Bool-cases (text_eq j k)) [
    | inl e ↦ rw e h
    | inr e ↦ rw e (lookup-put_other k j v d (other_way j k e) ∙ h.0, put-Distinct k v d h.1)
  ]

  pub lookup-put_all_absent :
      (k : Text) (d e : Dict A) → lookup k e ≡ none → lookup k (put_all d e) ≡ lookup k d
  lookup-put_all_absent k d [] h = refl
  lookup-put_all_absent k d ((j, w) ∷ e) h = elim (Bool-cases (text_eq j k)) [
    | inl b ↦ absurd (let bad : some w ≡ none = rw b at h in cc)
    | inr b ↦ lookup-put_all_absent k (put j w d) e (rw b at h) ∙ lookup-put_other j k w d b
  ]

  pub lookup-put_all :
      (k : Text) (v : A) (d e : Dict A)
      → Distinct e
      → lookup k e ≡ some v
      → lookup k (put_all d e) ≡ some v
  lookup-put_all k v d [] u h = cc
  lookup-put_all k v d ((j, w) ∷ e) u h = elim (Bool-cases (text_eq j k)) [
    | inl b ↦
        let same : j ≡ k = (text_eq_iff j k).0 b in
        let value : w ≡ v = some_inj w v (rw b at h) in
        lookup-put_all_absent k (put j w d) e (subst (λ x. lookup x e ≡ none) same u.0)
        ∙ (subst (λ x. lookup k (put x w d) ≡ some w) (sym same) (lookup-put_self k w d)
            ∙ ap (λ x. some x) value)
    | inr b ↦ lookup-put_all k v (put j w d) e u.1 (rw b at h)
  ]

  pub lookup-setdefault :
      (k j : Text) (v w : A) (d : Dict A)
      → lookup k d ≡ some v
      → lookup k (setdefault j w d) ≡ some v
  lookup-setdefault k j v w d h = elim (Option-cases (lookup j d)) [
    | inr (x, e) ↦ rw e h
    | inl e ↦ rw e (elim (Bool-cases (text_eq j k)) [
      | inl b ↦
          let same : j ≡ k = (text_eq_iff j k).0 b in
          let bad : none ≡ some v = sym e ∙ (subst (λ x. lookup x d ≡ some v) (sym same) h) in
          absurd (cc)
      | inr b ↦ lookup-put_other j k w d b ∙ h
    ])
  ]
