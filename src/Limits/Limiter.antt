-- ===== src/Limits/Limiter.antt =====
-- backend/app/core/rate_limit.py: the middleware that counts the requests of a client.
-- A reading of `time.monotonic` is a whole number of nanoseconds. The rest of the application,
-- `call_next`, is a parameter, and so is whether `_record_block` could write its audit event: it
-- has a database session of its own and swallows every exception.
use wes.Base.{
  ℕ, Bool, true, false, Option, none, some, List, [], ◌∷◌, ◌++◌, ◌-◌, ◌*◌, ◌&&◌, ltb, if◌then◌else◌,
  length, keep, Text, startswith, text_eq,
}

-- `_WINDOW`, 60.0 seconds.
abbrev pub window_length : ℕ
window_length = 60 * 1000000000

pub data Group : Type 0 where
  auth default : Group

pub record Key : Type 0 where
  pub ip : Text
  pub group : Group

-- `rate_limit_enabled`, `rate_limit_default` and `rate_limit_auth` of backend/app/core/config.py
pub record Settings : Type 0 where
  pub enabled : Bool
  pub default_limit : ℕ
  pub auth_limit : ℕ

-- A request, and the time at which it arrives.
pub record Request : Type 0 where
  pub path : Text
  pub client : Option Text
  pub now : ℕ

-- `_HITS`, a `defaultdict(list)`, and the audit events of the blocked requests.
pub record Limiter : Type 0 where
  pub hits : Key → List ℕ
  pub blocked : List (Text × Text)

pub data Response (R : Type 0) : Type 0 where
  passed : R → Response R
  too_many : Response R

abbrev pub same_group : Group → Group → Bool
same_group auth auth = true
same_group default default = true
same_group _ _ = false

abbrev pub same_key : Key → Key → Bool
same_key j k = text_eq j.ip k.ip && same_group j.group k.group

-- "/api/v1/auth"
abbrev pub auth_path : Text
auth_path = 47 ∷ 97 ∷ 112 ∷ 105 ∷ 47 ∷ 118 ∷ 49 ∷ 47 ∷ 97 ∷ 117 ∷ 116 ∷ 104 ∷ []

-- "unknown"
abbrev pub unknown_ip : Text
unknown_ip = 117 ∷ 110 ∷ 107 ∷ 110 ∷ 111 ∷ 119 ∷ 110 ∷ []

-- `_group`
unfoldable pub group_of : Text → Group
group_of path = if startswith auth_path path then auth else default

unfoldable pub limit_of : Settings → Group → ℕ
limit_of c auth = c.auth_limit
limit_of c default = c.default_limit

unfoldable pub key_of : Request → Key
key_of r = record {
  ip = elim r.client [ some host ↦ host | none ↦ unknown_ip ];
  group = group_of r.path;
}

-- `now - t < _WINDOW`
unfoldable pub recent : ℕ → ℕ → Bool
recent now t = ltb (now - t) window_length

-- `window`, with the request that arrives.
unfoldable pub window : Limiter → Request → List ℕ
window m r = keep (recent r.now) (m.hits (key_of r)) ++ r.now ∷ []

-- `_HITS[key] = window`
unfoldable pub store : Limiter → Request → Limiter
store m r = record {
  hits = λ k. if same_key k (key_of r) then window m r else m.hits k;
  blocked = m.blocked;
}

unfoldable pub record_block : Bool → Request → Limiter → Limiter
record_block true r m = record {
  hits = m.hits;
  blocked = m.blocked ++ ((key_of r).ip, r.path) ∷ [];
}
record_block false r m = m

unfoldable pub reset_rate_limiter : Limiter → Limiter
reset_rate_limiter m = record { hits = λ k. []; blocked = m.blocked }

module _ {R : Type 0} (settings : Settings) (call_next : Request → R)
    (writes : Request → Bool) where
  unfoldable pub dispatch : Request → Limiter → Response R × Limiter
  dispatch r m =
      if settings.enabled
      then if ltb (limit_of settings (key_of r).group) (length (window m r))
        then (too_many, record_block (writes r) r (store m r))
        else (passed (call_next r), store m r)
      else (passed (call_next r), m)

  -- Requests one after the other, and their responses.
  unfoldable pub serve : List Request → Limiter → List (Response R) × Limiter
  serve [] m = ([], m)
  serve (r ∷ rs) m =
      let (answer, m1) = dispatch r m in let (answers, m2) = serve rs m1 in (answer ∷ answers, m2)
