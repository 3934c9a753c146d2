-- ===== src/Store/Validation.antt =====
-- backend/src/home_compass/store/validation.py. The tests that raise are Boolean tests here, and
-- the repositories raise where a test fails. Types are checked by the language (`isinstance`).
use Prim.Native.Char.{code}
use home_compass.Prelude.{
  ℕ, ◌-◌, String, Bool, true, false, not, ◌&&◌, ◌||◌, Option, none, some, List, [], ◌∷◌, ◌==◌, ltb,
  leb, eqb, if◌then◌else◌, length, take, drop,
}
use home_compass.Store.Models.{
  DateTime, DraftStatus, Origin, human_approval, seed, Role, Decision, approved, rejected,
}

abbrev pub require_aware : DateTime → Bool
require_aware d = d.aware

abbrev pub aware_or_none : Option DateTime → Bool
aware_or_none none = true
aware_or_none (some d) = require_aware d

abbrev pub validate_draft_status : DraftStatus → Bool
validate_draft_status (DraftStatus.other _) = false
validate_draft_status _ = true

abbrev pub validate_role : Role → Bool
validate_role (Role.other _) = false
validate_role _ = true

-- the characters that Python's `str.strip` takes off
is_space : ℕ → Bool
is_space c =
    (leb 9 c && leb c 13)
    || (leb 28 c && leb c 32)
    || eqb c 133
    || eqb c 160
    || eqb c 5760
    || (leb 8192 c && leb c 8202)
    || eqb c 8232
    || eqb c 8233
    || eqb c 8239
    || eqb c 8287
    || eqb c 12288

-- `not s.strip()`
unfoldable pub is_blank : String → Bool
unfolding is_space
is_blank String.[] = true
is_blank (String.◌∷◌ c s) = is_space (code c) && is_blank s

strip_start : String → String
unfolding is_space
strip_start String.[] = ""
strip_start (String.◌∷◌ c s) = if is_space (code c) then strip_start s else String.◌∷◌ c s

strip_end : String → String
unfolding is_blank
strip_end String.[] = ""
strip_end (String.◌∷◌ c s) =
    if is_space (code c) && is_blank s then "" else String.◌∷◌ c (strip_end s)

-- s.strip()
unfoldable pub strip : String → String
unfolding strip_start strip_end
strip s = strip_end (strip_start s)

-- `not (s or "").strip()`
abbrev pub is_blank_reason : Option String → Bool
is_blank_reason none = true
is_blank_reason (some s) = is_blank s

-- a rejection has a reason
abbrev pub validate_approval : Decision → Option String → Bool
validate_approval approved reason = true
validate_approval rejected reason = not (is_blank_reason reason)
validate_approval (Decision.other _) reason = false

-- `not s`, for an optional text
abbrev pub is_blank_option : Option String → Bool
is_blank_option none = true
is_blank_option (some s) = s == ""

abbrev pub validate_rule_version_origin : Origin → Option String → Bool → Bool
validate_rule_version_origin human_approval approved_by has_approval_record =
    not (is_blank_option approved_by) && has_approval_record
validate_rule_version_origin seed none has_approval_record = not has_approval_record
validate_rule_version_origin seed (some _) has_approval_record = false
validate_rule_version_origin (Origin.other _) approved_by has_approval_record = false

-- text[start:end] on code points
abbrev pub slice {ℓ} : {A : Type ℓ} → List A → ℕ → ℕ → List A
slice text start stop = take (stop - start) (drop start text)

-- the range test of `validate_span`
unfoldable pub span_in_range : List ℕ → ℕ → ℕ → Bool
span_in_range text start stop = ltb start stop && leb stop (length text)

-- every `~` of a token stands before `0` or `1`; the loop goes on behind the pair
escapes_ok : List ℕ → Bool
escapes_ok [] = true
escapes_ok (c ∷ []) = not (eqb c b'~')
escapes_ok (c ∷ d ∷ rest) =
    let pair = (eqb d b'0' || eqb d b'1') && escapes_ok rest in
    let single = escapes_ok (d ∷ rest) in if eqb c b'~' then pair else single

-- field_path.split("/")
split_slash : List ℕ → List (List ℕ)
split_slash [] = [] ∷ []
split_slash (c ∷ cs) = cut (eqb c b'/') c (split_slash cs)
  where
    cut : Bool → ℕ → List (List ℕ) → List (List ℕ)
    cut true c parts = [] ∷ parts
    cut false c [] = (c ∷ []) ∷ []
    cut false c (p ∷ ps) = (c ∷ p) ∷ ps

all_escapes_ok : List (List ℕ) → Bool
all_escapes_ok [] = true
all_escapes_ok (t ∷ ts) = escapes_ok t && all_escapes_ok ts

-- RFC 6901; the empty text points to the root
unfoldable pub validate_json_pointer : List ℕ → Bool
unfolding escapes_ok split_slash all_escapes_ok
validate_json_pointer [] = true
validate_json_pointer (c ∷ cs) = eqb c b'/' && all_escapes_ok (tokens (split_slash (c ∷ cs)))
  where
    tokens : List (List ℕ) → List (List ℕ)
    tokens [] = []
    tokens (first ∷ rest) = rest
