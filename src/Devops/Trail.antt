-- ===== src/Devops/Trail.antt =====
-- What it means that a run recorded the stages in order (backend/app/services/devops_pipeline.py).
use wes.Base.{
  ◌≡◌, refl, ap, subst, sym, ◌∙◌, Bool, true, false, ◌&&◌, List, [], ◌∷◌, ◌++◌, map, any, length,
  take, ◌==◌, Result, arith,
}
use wes.Devops.State.{StageStatus, StageName, Stage, is_awaiting_production}
use wes.Devops.Pipeline.{Verdict}
use wes.Devops.Run.{verdict}

abbrev pub is_failed : StageStatus → Bool
is_failed StageStatus.failed = true
is_failed _ = false

abbrev pub stage_name : Stage → StageName
stage_name s = s.stage

abbrev pub stage_failed : Stage → Bool
stage_failed s = is_failed s.status

abbrev pub awaits : Result Verdict → Bool
awaits r = is_awaiting_production (verdict r).final

-- To the stages `l` the rest of a run added those of `names`, in order, up to where it stopped; it
-- waits for production if and only if it recorded them all, and none failed then.
pub record Trail (names : List StageName) (l : List Stage) (r : Result Verdict) (t : List Stage)
    : Type 0 where
  pub added : List Stage
  pub ends : t ≡ l ++ added
  pub named : map stage_name added ≡ take (length added) names
  pub all_of_them : awaits r ≡ (length added == length names)
  pub none_failed : (awaits r && any stage_failed added) ≡ false

append_snoc : {A : Type 0} (l : List A) (x : A) (m : List A) → (l ++ x ∷ []) ++ m ≡ l ++ x ∷ m
append_snoc [] x m = refl
append_snoc (y ∷ l) x m = ap (λ k. y ∷ k) (append_snoc l x m)

append_nil : {A : Type 0} (l : List A) → l ≡ l ++ []
append_nil [] = refl
append_nil (y ∷ l) = ap (λ k. y ∷ k) (append_nil l)

-- A stage that did not fail, and then the rest.
pub Trail-next :
    (n : StageName) (st : StageStatus) (names : List StageName) (l : List Stage)
    (r : Result Verdict) (t : List Stage)
    → is_failed st ≡ false
    → Trail names (l ++ record { stage = n; status = st } ∷ []) r t
    → Trail (n ∷ names) l r t
Trail-next n st names l r t good h = record {
  added = record { stage = n; status = st } ∷ h.added;
  ends = h.ends ∙ append_snoc l _ h.added;
  named = ap (λ k. n ∷ k) h.named;
  all_of_them = h.all_of_them ∙ ground arith;
  none_failed = rw good h.none_failed;
}

-- A run that stops before a stage, or after one that failed.
pub Trail-stop :
    (n : StageName) (names : List StageName) (l : List Stage) (r : Result Verdict)
    → awaits r ≡ false
    → Trail (n ∷ names) l r l
Trail-stop n names l r h = record {
  added = [];
  ends = append_nil l;
  named = refl;
  all_of_them = h ∙ ground arith;
  none_failed = rw h refl;
}

pub Trail-fail :
    (n m : StageName) (st : StageStatus) (names : List StageName) (l : List Stage)
    (r : Result Verdict)
    → awaits r ≡ false
    → Trail (n ∷ m ∷ names) l r (l ++ record { stage = n; status = st } ∷ [])
Trail-fail n m st names l r h = record {
  added = record { stage = n; status = st } ∷ [];
  ends = refl;
  named = refl;
  all_of_them = h ∙ ground arith;
  none_failed = rw h refl;
}

pub Trail-done : (l : List Stage) (r : Result Verdict) → awaits r ≡ true → Trail [] l r l
Trail-done l r h = record {
  added = [];
  ends = append_nil l;
  named = refl;
  all_of_them = h;
  none_failed = rw h refl;
}

-- Failing tests record two stages.
pub Trail-fail_tests :
    (names : List StageName) (l : List Stage) (r : Result Verdict) (a b : Stage)
    → awaits r ≡ false
    → (n : StageName)
    → Trail (stage_name a ∷ stage_name b ∷ n ∷ names) l r ((l ++ a ∷ []) ++ b ∷ [])
Trail-fail_tests names l r a b h n = record {
  added = a ∷ b ∷ [];
  ends = append_snoc l a (b ∷ []);
  named = refl;
  all_of_them = h ∙ ground arith;
  none_failed = rw h refl;
}

pub Trail-from_empty :
    (names : List StageName) (r : Result Verdict) (t : List Stage)
    → Trail names [] r t
    → (map stage_name t ≡ take (length t) names)
      × (awaits r ≡ (length t == length names))
      × ((awaits r && any stage_failed t) ≡ false)
Trail-from_empty names r t h =
    subst
      (λ m.
        (map stage_name m ≡ take (length m) names)
        × (awaits r ≡ (length m == length names))
        × ((awaits r && any stage_failed m) ≡ false))
      (sym h.ends) (h.named, h.all_of_them, h.none_failed)
