-- ===== src/Store/Json.antt =====
-- JSON values as the payloads of drafts and rule versions hold them
-- (backend/src/home_compass/store/models.py: `payload: dict[str, Any]`), and Python's dict over them.
-- A number is kept as the literal that stands for it: no code below computes with it.
use home_compass.Prelude.{
  String, Bool, true, false, Option, none, some, ◌≡◌, refl, arith, ◌==◌, eq_iff, if◌then◌else◌,
}

mutual
  pub data Json : Type 0 where
    null : Json
    bool : Bool → Json
    num : String → Json
    str : String → Json
    arr : Items → Json
    obj : Fields → Json

  pub data Items : Type 0 where
    nil : Items
    item : Json → Items → Items

  pub data Fields : Type 0 where
    end : Fields
    field : String → Json → Fields → Fields

-- d.get(k)
unfoldable pub get_field : String → Fields → Option Json
get_field k end = none
get_field k (field j v fs) = if j == k then some v else get_field k fs

-- d[k] = v: a key that is there keeps its place
unfoldable pub put_field : String → Json → Fields → Fields
put_field k v end = field k v end
put_field k v (field j w fs) = if j == k then field j v fs else field j w (put_field k v fs)

pub get-put :
    (k j : String) (v : Json) (fs : Fields)
    → get_field j (put_field k v fs) ≡ (if k == j then some v else get_field j fs)
unfolding get_field put_field
get-put k j v end = refl
get-put k j v (field i w fs) = ground (arith, eq_iff k j, eq_iff i k, eq_iff i j, get-put k j v fs)

-- the strings of an array
unfoldable pub mentions : String → Items → Bool
mentions s nil = false
mentions s (item (str t) is) = if t == s then true else mentions s is
mentions s (item _ is) = mentions s is
