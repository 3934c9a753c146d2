-- ===== src/Auth/Permissions.antt =====
-- `PERMISSIONS`, `allows` and `csrf_matches` of backend/src/home_compass/auth.py.
use home_compass.Prelude.{
  String, Bool, true, false, ◌||◌, Option, none, some, List, [], ◌∷◌, ◌==◌, if◌then◌else◌,
}
use home_compass.Store.Models.{Role, counselor, rule_manager}
use home_compass.Auth.Sessions.{Session}

abbrev same_role : Role → Role → Bool
same_role Role.citizen Role.citizen = true
same_role counselor counselor = true
same_role rule_manager rule_manager = true
same_role (Role.other s) (Role.other t) = s == t
same_role _ _ = false

abbrev permissions : List (String × List Role)
permissions =
    ("analysis.read", [])
    ∷ ("session.end", counselor ∷ rule_manager ∷ [])
    ∷ ("analysis.internal", counselor ∷ rule_manager ∷ [])
    ∷ ("draft.read", rule_manager ∷ [])
    ∷ ("draft.decide", rule_manager ∷ [])
    ∷ ("audit.read", rule_manager ∷ [])
    ∷ ("report.create", counselor ∷ rule_manager ∷ [])
    ∷ ("report.read", rule_manager ∷ [])
    ∷ ("status.read", rule_manager ∷ [])
    ∷ []

-- PERMISSIONS.get(action)
allowed_roles : String → List (String × List Role) → Option (List Role)
allowed_roles action [] = none
allowed_roles action ((a, roles) ∷ rest) =
    if a == action then some roles else allowed_roles action rest

-- `role in allowed`
has_role : Option Role → List Role → Bool
has_role none roles = false
has_role (some r) [] = false
has_role (some r) (s ∷ roles) = same_role r s || has_role (some r) roles

-- the tests of `allows`, on the row of the table
decide_roles : Option (List Role) → Option Role → Bool
decide_roles none role = false
decide_roles (some []) role = true
decide_roles (some (r ∷ rs)) role = has_role role (r ∷ rs)

-- `allows`; no role is an anonymous caller
unfoldable pub allows : String → Option Role → Bool
unfolding allowed_roles has_role decide_roles
allows action role = decide_roles (allowed_roles action permissions) role

-- `csrf_matches`: a token that is missing or empty matches nothing
unfoldable pub csrf_matches : Session → Option String → Bool
csrf_matches session none = false
csrf_matches session (some presented) =
    if presented == "" then false else session.csrf_token == presented
