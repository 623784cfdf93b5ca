-- ===== src/Limits/Tests.antt =====
-- The rate limiter at three requests of one client, with room for one.
use wes.Base.{ℕ, Bool, true, false, none, List, [], ◌∷◌, ◌≡◌, refl, arith, Text}
use wes.Limits.Limiter.{
  Settings, Request, Limiter, Response, too_many, passed, serve, reset_rate_limiter, limit_of,
  key_of, group_of,
}
use wes.Limits.Window.{replay, serve-replay}

abbrev one_a_minute : Settings
one_a_minute = record { enabled = true; default_limit = 1; auth_limit = 1 }

abbrev fresh_limiter : Limiter
fresh_limiter = record { hits = λ k. 7 ∷ []; blocked = [] }

abbrev at : ℕ → Request
at t = record { path = 47 ∷ []; client = none; now = t }

-- At 0, 59, 118 and 178 seconds: the arrival of the refused second makes the third be refused.
abbrev three : List Request
three = at 0 ∷ at 59000000000 ∷ at 118000000000 ∷ at 178000000000 ∷ []

abbrev answers : List (Response Text)
answers = passed (47 ∷ []) ∷ too_many ∷ too_many ∷ passed (47 ∷ []) ∷ []

answers_test : replay one_a_minute (λ (r : Request). r.path) [] three ≡ answers
unfolding limit_of key_of group_of
answers_test = refl

abbrev never : Request → Bool
never r = false

serve-replay_example :
    (serve one_a_minute (λ (r : Request). r.path) never three (reset_rate_limiter fresh_limiter)).0
    ≡ replay one_a_minute (λ (r : Request). r.path) [] three
serve-replay_example =
    serve-replay one_a_minute (λ (r : Request). r.path) never fresh_limiter three refl
      (omega arith, (omega arith, (omega arith, (omega arith, tt))))
