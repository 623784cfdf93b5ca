-- ===== src/Limits/Window.antt =====
-- What the rate limiter answers, against the whole history of arrivals.
use wes.Base.{
  ℕ, Bool, true, false, List, [], ◌∷◌, ◌++◌, ◌-◌, ◌&&◌, ◌≤◌, ◌≡◌, refl, ltb, if◌then◌else◌, length,
  keep, keep-append, append_nil, map, Bool-cases, inl, inr, arith, text_eq, text_eq_iff, Text, ap,
  ◌∙◌, subst, sym,
}
use wes.Limits.Limiter.{
  Key, Settings, Request, Limiter, Response, passed, too_many, Group, auth, default, same_key,
  same_group, key_of, recent, window_length, window, store, record_block, limit_of, dispatch, serve,
  reset_rate_limiter,
}

-- The times of the arrivals that carry a key.
abbrev pub times_of : Key → List Request → List ℕ
times_of k rs = map (λ (r : Request). r.now) (keep (λ r. same_key k (key_of r)) rs)

-- How many of the requests `rs` carry the key of `r` and arrived in the minute before it.
abbrev pub arrivals : Request → List Request → ℕ
arrivals r rs =
    length (keep (λ s. same_key (key_of r) (key_of s) && ltb (r.now - s.now) window_length) rs)

-- The answers of a limiter that keeps every arrival and counts anew for each request.
abbrev pub replay :
    {R : Type 0} → Settings → (Request → R) → List Request → List Request → List (Response R)
replay c call_next past [] = []
replay c call_next past (r ∷ rs) =
    (if ltb (limit_of c (key_of r).group) (arrivals r (past ++ r ∷ []))
      then too_many
      else passed (call_next r))
    ∷ replay c call_next (past ++ r ∷ []) rs

-- The arrivals are in the order of their times.
abbrev pub InOrder : ℕ → List Request → Type 0
InOrder t [] = Unit
InOrder t (r ∷ rs) = (t ≤ r.now) × InOrder r.now rs

abbrev pub Before : ℕ → Request → Type 0
Before t r = r.now ≤ t

-- For a clock that has reached `now`, the window of a key holds what is recent of its arrivals.
abbrev pub Tracks : Limiter → List Request → ℕ → Type 0
Tracks m past t =
    (k : Key) (now : ℕ)
    → t ≤ now
    → keep (recent now) (m.hits k) ≡ keep (recent now) (times_of k past)

recent_mono : (a b t : ℕ) → a ≤ b → recent b t ≡ true → recent a t ≡ true
unfolding recent
recent_mono a b t h k = ground arith

recent_self : (a : ℕ) → recent a a ≡ true
unfolding recent
recent_self a = ground arith

keep-keep {ℓ} :
    {A : Type ℓ} (p q : A → Bool)
    → ((x : A) → p x ≡ true → q x ≡ true)
    → (xs : List A) → keep p (keep q xs) ≡ keep p xs
keep-keep p q h [] = refl
keep-keep p q h (x ∷ xs) = elim (Bool-cases (q x)) [
  | inl e ↦ rw e (ground (arith, keep-keep p q h xs))
  | inr e ↦ elim (Bool-cases (p x)) [
    | inl e' ↦ let e2 : q x ≡ true = h x e' in cc
    | inr e' ↦ rw (e, e') (keep-keep p q h xs)
  ]
]

times_of-append :
    (k : Key) (past : List Request) (r : Request)
    → times_of k (past ++ r ∷ [])
      ≡ times_of k past ++ (if same_key k (key_of r) then r.now ∷ [] else [])
times_of-append k [] r = ground arith
times_of-append k (s ∷ past) r = ground (arith, times_of-append k past r)

length-times_of :
    (r : Request) (past : List Request)
    → length (keep (recent r.now) (times_of (key_of r) past)) ≡ arrivals r past
unfolding recent
length-times_of r [] = refl
length-times_of r (s ∷ past) = elim (Bool-cases (same_key (key_of r) (key_of s))) [
  | inl e ↦ rw e (ground (arith, length-times_of r past))
  | inr e ↦ rw e (length-times_of r past)
]

same_group_refl : (g : Group) → same_group g g ≡ true
same_group_refl auth = refl
same_group_refl default = refl

same_key_refl : (k : Key) → same_key k k ≡ true
same_key_refl k = rw ((text_eq_iff k.ip k.ip).1 refl) (same_group_refl k.group)

key_eta : (k : Key) → record { ip = k.ip; group = k.group } ≡ k
key_eta k = refl

same_group_eq : (g h : Group) → same_group g h ≡ true → g ≡ h
same_group_eq auth auth e = refl
same_group_eq auth default e = cc
same_group_eq default auth e = cc
same_group_eq default default e = refl

same_key_eq : (j k : Key) → same_key j k ≡ true → j ≡ k
same_key_eq j k e = elim (Bool-cases (text_eq j.ip k.ip)) [
  | inl e1 ↦
      let i : j.ip ≡ k.ip = (text_eq_iff j.ip k.ip).0 e1 in
      let g : j.group ≡ k.group = same_group_eq j.group k.group (rw e1 at e) in
      ap (λ (x : Text). record { ip = x; group = j.group }) i
      ∙ ap (λ (x : Group). record { ip = k.ip; group = x }) g
  | inr e1 ↦ let bad : false ≡ true = rw e1 at e in cc
]

Tracks-store_self :
    (m : Limiter) (past : List Request) (t : ℕ) (r : Request) (now : ℕ)
    → Tracks m past t
    → t ≤ r.now
    → r.now ≤ now
    → keep (recent now) (window m r) ≡ keep (recent now) (times_of (key_of r) (past ++ r ∷ []))
unfolding window
Tracks-store_self m past t r now track h k =
    rw (times_of-append (key_of r) past r, same_key_refl (key_of r))
      (rw (keep-append (recent now) (keep (recent r.now) (m.hits (key_of r))) (r.now ∷ [])) (
        rw (keep-append (recent now) (times_of (key_of r) past) (r.now ∷ [])) (
          rw
            (keep-keep (recent now) (recent r.now) (λ x. recent_mono r.now now x k)
              (m.hits (key_of r)))
            (rw (track (key_of r) now (omega (arith, h, k))) refl))))

Tracks-store :
    (m : Limiter) (past : List Request) (t : ℕ) (r : Request)
    → Tracks m past t
    → t ≤ r.now
    → Tracks (store m r) (past ++ r ∷ []) r.now
unfolding store
Tracks-store m past t r track h k now h' = elim (Bool-cases (same_key k (key_of r))) [
  | inl e ↦ rw e (
      subst (λ j. keep (recent now) (window m r) ≡ keep (recent now) (times_of j (past ++ r ∷ [])))
        (sym (same_key_eq k (key_of r) e)) (Tracks-store_self m past t r now track h h'))
  | inr e ↦
      rw (times_of-append k past r, e, append_nil (times_of k past))
        (track k now (omega (arith, h, h')))
]

length-window :
    (m : Limiter) (past : List Request) (t : ℕ) (r : Request)
    → Tracks m past t
    → t ≤ r.now
    → length (window m r) ≡ arrivals r (past ++ r ∷ [])
unfolding window
length-window m past t r track h =
    rw
      (
        sym (length-times_of r (past ++ r ∷ [])),
        times_of-append (key_of r) past r,
        same_key_refl (key_of r),
      )
      (rw (keep-append (recent r.now) (times_of (key_of r) past) (r.now ∷ []), recent_self r.now)
        (rw (track (key_of r) r.now h) refl))

record_block-Tracks :
    (b : Bool) (r : Request) (m : Limiter) (past : List Request) (t : ℕ)
    → Tracks m past t
    → Tracks (record_block b r m) past t
unfolding record_block
record_block-Tracks true r m past t track = track
record_block-Tracks false r m past t track = track

module _ {R : Type 0} (c : Settings) (call_next : Request → R) (writes : Request → Bool) where
  serve_from :
      c.enabled ≡ true
      → (m : Limiter) (past : List Request) (t : ℕ) (rs : List Request) → Tracks m past t
      → InOrder t rs
      → (serve c call_next writes rs m).0 ≡ replay c call_next past rs
  unfolding serve dispatch limit_of
  serve_from on m past t [] track h = refl
  serve_from on m past t (r ∷ rs) track h =
      elim (Bool-cases (ltb (limit_of c (key_of r).group) (arrivals r (past ++ r ∷ [])))) [
        | inl e ↦
            rw (on, length-window m past t r track h.0, e)
              (ap (λ a. too_many ∷ a)
                (serve_from on (record_block (writes r) r (store m r)) (past ++ r ∷ []) r.now rs
                  (record_block-Tracks (writes r) r (store m r) (past ++ r ∷ []) r.now
                    (Tracks-store m past t r track h.0))
                  h.1))
        | inr e ↦
            rw (on, length-window m past t r track h.0, e)
              (ap (λ a. passed (call_next r) ∷ a)
                (serve_from on (store m r) (past ++ r ∷ []) r.now rs
                  (Tracks-store m past t r track h.0) h.1))
      ]

  -- With the limiter enabled and reset, and requests that arrive in the order of time, `serve`
  -- answers as the limiter does that keeps every arrival and counts, for each request, the
  -- arrivals of its client and group in the minute before it, those that were refused included.
  pub serve-replay :
      (m : Limiter) (rs : List Request)
      → c.enabled ≡ true
      → InOrder 0 rs
      → (serve c call_next writes rs (reset_rate_limiter m)).0 ≡ replay c call_next [] rs
  unfolding reset_rate_limiter
  serve-replay m rs on h = serve_from on (reset_rate_limiter m) [] 0 rs (λ k now b. refl) h
