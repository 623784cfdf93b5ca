-- ===== src/Knowledge/Slug.antt =====
-- `slugify` of backend/app/services/knowledge.py on code points; Python's `str.lower` is a parameter.
use wes.Base.{
  ℕ, Bool, true, false, ◌&&◌, ◌||◌, not, [], ◌∷◌, if◌then◌else◌, ◌==◌, leb, Text, is_nonempty,
}

-- [a-z0-9]
abbrev pub is_word : ℕ → Bool
is_word c = (leb 97 c && leb c 122) || (leb 48 c && leb c 57)

-- "-"
abbrev pub dash : ℕ
dash = 45

-- `_SLUG_RE.sub("-", ...)`; the flag tells that the last code point belonged to a run that is
-- replaced already.
abbrev pub sub_runs : Bool → Text → Text
sub_runs replaced [] = []
sub_runs replaced (c ∷ t) =
    let word = sub_runs false t in
    let rest = sub_runs true t in
    if is_word c then c ∷ word else (if replaced then rest else dash ∷ rest)

abbrev pub strip_start : Text → Text
strip_start [] = []
strip_start (c ∷ t) = let rest = strip_start t in if c == dash then rest else c ∷ t

abbrev pub strip_end : Text → Text
strip_end [] = []
strip_end (c ∷ t) =
    let rest = strip_end t in if c == dash && not (is_nonempty rest) then [] else c ∷ rest

abbrev pub or_document : Text → Text
or_document [] = 100 ∷ 111 ∷ 99 ∷ 117 ∷ 109 ∷ 101 ∷ 110 ∷ 116 ∷ []
or_document (c ∷ t) = c ∷ t

module _ (lower : Text → Text) where
  unfoldable pub slugify : Text → Text
  slugify text = or_document (strip_end (strip_start (sub_runs false (lower text))))
