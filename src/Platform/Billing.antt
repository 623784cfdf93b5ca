-- ===== src/Platform/Billing.antt =====
-- The billing table against the usages that were recorded.
use wes.Base.{
  ℕ, ◌+◌, Bool, true, false, ◌&&◌, Option, none, some, List, [], ◌∷◌, ◌++◌, ◌≡◌, inl, inr, refl,
  arith, Bool-cases, ◌==◌, ==_iff, ==_refl, sym, if◌then◌else◌, Text, text_eq, text_eq_iff, first,
}
use mathlib.Core.Option
use wes.Platform.Float.{Float, FloatOps}
use wes.Platform.State.{ProviderUsage, ProviderBilling, Period, day, month, PlatformDb}
use wes.Platform.Usage.{
  ExecutionResult, Today, Origin, same_period, bills, usage_of, roll, record_usage,
}

-- The tokens and the cost of a row.
abbrev pub amounts : ProviderBilling → ℕ × Float
amounts b = (b.tokens, b.cost)

abbrev pub period_key_of : Period → ProviderUsage → Text
period_key_of day u = u.day
period_key_of month u = u.month

abbrev pub falls_in : ℕ → Period → Text → ProviderUsage → Bool
falls_in provider_id period key u =
    u.provider_id == provider_id && text_eq (period_key_of period u) key

bills_self :
    (id : ℕ) (period : Period) (key : Text) (tokens : ℕ) (cost : Float) (currency : Text)
    → bills id period key (record {
      provider_id = id;
      period = period;
      period_key = key;
      tokens = tokens;
      cost = cost;
      currency = currency;
    })
      ≡ true
bills_self id day key tokens cost currency = rw (==_refl id, (text_eq_iff key key).1 refl) refl
bills_self id month key tokens cost currency = rw (==_refl id, (text_eq_iff key key).1 refl) refl

and_parts : (a b : Bool) → (a && b) ≡ true → (a ≡ true) × (b ≡ true)
and_parts true true h = (refl, refl)
and_parts true false h = cc
and_parts false b h = cc

period_eq : (p q : Period) → same_period p q ≡ true → p ≡ q
period_eq day day h = refl
period_eq month month h = refl
period_eq day month h = cc
period_eq month day h = cc

bills_eq :
    (id : ℕ) (period : Period) (key : Text) (b : ProviderBilling)
    → bills id period key b ≡ true
    → (b.provider_id ≡ id) × (b.period ≡ period) × (b.period_key ≡ key)
bills_eq id period key b h =
    let x =
      and_parts (b.provider_id == id) (same_period b.period period && text_eq b.period_key key) h in
    let y = and_parts (same_period b.period period) (text_eq b.period_key key) x.1 in
    (
      (==_iff b.provider_id id).0 x.0,
      period_eq b.period period y.0,
      (text_eq_iff b.period_key key).0 y.1,
    )

-- A row for one provider, period and key is not the row for another.
abbrev same_bill : ℕ → Period → Text → ℕ → Period → Text → Bool
same_bill id period key j q k = id == j && (same_period period q && text_eq key k)

bills_other :
    (id : ℕ) (period : Period) (key : Text) (j : ℕ) (q : Period) (k : Text) (b : ProviderBilling)
    → bills id period key b ≡ true
    → same_bill id period key j q k ≡ false
    → bills j q k b ≡ false
bills_other id period key j q k b h e =
    let x : (b.provider_id ≡ id) × (b.period ≡ period) × (b.period_key ≡ key) =
      bills_eq id period key b h in
    rw (x.0, x.1, x.2) e

module _ (ops : FloatOps) where
  abbrev pub charge : ℕ → Float → Option (ℕ × Float) → ℕ × Float
  charge tokens cost none = (tokens, cost)
  charge tokens cost (some (t, c)) = (t + tokens, ops.add c cost)

  -- The tokens and the cost of the usages of a provider in a period, added in their order.
  abbrev pub charges :
      (ProviderUsage → Bool) → Option (ℕ × Float) → List ProviderUsage → Option (ℕ × Float)
  charges p total [] = total
  charges p total (u ∷ us) =
      charges p (if p u then some (charge u.total_tokens u.estimated_cost total) else total) us

  charges-append :
      (p : ProviderUsage → Bool) (total : Option (ℕ × Float)) (us : List ProviderUsage)
      (u : ProviderUsage)
      → charges p total (us ++ u ∷ []) ≡ (
          if p u
          then some (charge u.total_tokens u.estimated_cost (charges p total us))
          else charges p total us)
  charges-append p total [] u = refl
  charges-append p total (v ∷ us) u =
      charges-append p (if p v then some (charge v.total_tokens v.estimated_cost total) else total)
        us u

  -- Each bill is the sum of the usages of its provider and period.
  abbrev pub Agrees : PlatformDb → Type 0
  Agrees s =
      (id : ℕ) (period : Period) (key : Text)
      → Option.map amounts (first (bills id period key) s.billings)
        ≡ charges (falls_in id period key) none s.usages

  roll_self :
      (id : ℕ) (period : Period) (key : Text) (r : ExecutionResult) (bs : List ProviderBilling)
      → Option.map amounts (first (bills id period key) (roll ops id period key r bs))
        ≡ some (charge r.total_tokens r.cost (Option.map amounts (first (bills id period key) bs)))
  unfolding roll
  roll_self id period key r [] = rw (bills_self id period key r.total_tokens r.cost r.currency) refl
  roll_self id period key r (b ∷ bs) = elim (Bool-cases (bills id period key b)) [
    | inl e ↦ rw (e, e) refl
    | inr e ↦ rw e (rw e (roll_self id period key r bs))
  ]

  roll_other :
      (id : ℕ) (period : Period) (key : Text) (j : ℕ) (q : Period) (k : Text) (r : ExecutionResult)
      (bs : List ProviderBilling)
      → same_bill id period key j q k ≡ false
      → first (bills j q k) (roll ops id period key r bs) ≡ first (bills j q k) bs
  unfolding roll
  roll_other id period key j q k r [] d = rw d refl
  roll_other id period key j q k r (b ∷ bs) d = elim (Bool-cases (bills id period key b)) [
    | inl e ↦
        let o : bills j q k b ≡ false = bills_other id period key j q k b e d in rw e (rw o refl)
    | inr e ↦ rw e (elim (Bool-cases (bills j q k b)) [
      | inl o ↦ rw o refl
      | inr o ↦ rw o (roll_other id period key j q k r bs d)
    ])
  ]

  -- The step of a total for one usage.
  abbrev charge_if : Bool → ℕ → Float → Option (ℕ × Float) → Option (ℕ × Float)
  charge_if true tokens cost total = some (charge tokens cost total)
  charge_if false tokens cost total = total

  if_charge :
      (b : Bool) (tokens : ℕ) (cost : Float) (total : Option (ℕ × Float))
      → charge_if b tokens cost total ≡ (if b then some (charge tokens cost total) else total)
  if_charge true tokens cost total = refl
  if_charge false tokens cost total = refl

  roll_step :
      (id : ℕ) (period : Period) (key : Text) (j : ℕ) (q : Period) (k : Text) (r : ExecutionResult)
      (bs : List ProviderBilling)
      → Option.map amounts (first (bills j q k) (roll ops id period key r bs))
        ≡ charge_if
            (same_bill id period key j q k)
            r.total_tokens
            r.cost
            (Option.map amounts (first (bills j q k) bs))
  roll_step id period key j q k r bs = elim (Bool-cases (same_bill id period key j q k)) [
    | inl e ↦
        let x = and_parts (id == j) (same_period period q && text_eq key k) e in
        let y = and_parts (same_period period q) (text_eq key k) x.1 in
        let xi : j ≡ id = sym ((==_iff id j).0 x.0) in
        let xp : q ≡ period = sym (period_eq period q y.0) in
        let xk : k ≡ key = sym ((text_eq_iff key k).0 y.1) in
        rw e (rw (xi, xp, xk) (roll_self id period key r bs))
    | inr e ↦ rw (e, roll_other id period key j q k r bs e) refl
  ]

  -- Recording a usage keeps the bills in agreement with the usages.
  record_usage-Agrees :
      (today : Today) (id : ℕ) (o : Origin) (r : ExecutionResult) (s : PlatformDb)
      → Agrees s
      → Agrees (record_usage ops today id o r s)
  unfolding record_usage
  record_usage-Agrees today id o r s a j day k =
      let off : same_bill id month today.month j day k ≡ false = ground arith in
      rw
        (
          roll_other id month today.month j day k r (roll ops id day today.day r s.billings) off,
          charges-append (falls_in j day k) none s.usages (usage_of today id o r),
          roll_step id day today.day j day k r s.billings,
          a j day k,
        )
        (if_charge (id == j && text_eq today.day k) r.total_tokens r.cost _)
  record_usage-Agrees today id o r s a j month k =
      let off : same_bill id day today.day j month k ≡ false = ground arith in
      rw
        (
          charges-append (falls_in j month k) none s.usages (usage_of today id o r),
          roll_step id month today.month j month k r (roll ops id day today.day r s.billings),
          roll_other id day today.day j month k r s.billings off,
          a j month k,
        )
        (if_charge (id == j && text_eq today.month k) r.total_tokens r.cost _)

  -- What one call of `CostEngine.record` is given.
  abbrev pub Recording : Type 0
  Recording = Today × ℕ × Origin × ExecutionResult

  abbrev pub record_all : List Recording → PlatformDb → PlatformDb
  record_all [] s = s
  record_all ((today, id, o, r) ∷ rest) s = record_all rest (record_usage ops today id o r s)

  -- Whatever is recorded, in whatever order, from a database whose bills agree with its usages: for
  -- every provider, day and month, the bill that is found has the sum of the tokens and of the costs
  -- of that provider's usages in that period, and there is none if there are no such usages.
  pub record_all-Agrees :
      (calls : List Recording) (s : PlatformDb) → Agrees s → Agrees (record_all calls s)
  record_all-Agrees [] s a = a
  record_all-Agrees ((today, id, o, r) ∷ rest) s a =
      record_all-Agrees rest (record_usage ops today id o r s)
        (record_usage-Agrees today id o r s a)
