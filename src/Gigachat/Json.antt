-- ===== src/Gigachat/Json.antt =====
-- JSON values as Python has them, and the functions of Python and of its library that
-- app/providers/gigachat.py applies to them.
use role_model_helper_v.Prelude.{
  String, Bool, true, false, not, Option, none, some, List, [], ◌∷◌, ◌==◌, nat_eq, string_eq,
  if◌then◌else◌,
}
use role_model_helper_v.Score.{Float, nan, minus, plus, fraction}

mutual
  pub data Json : Type 0 where
    null : Json
    bool : Bool → Json
    num : Float → Json
    str : String → Json
    arr : Items → Json
    obj : Fields → Json

  pub data Items : Type 0 where
    nil : Items
    cons : Json → Items → Items

  pub data Fields : Type 0 where
    end : Fields
    field : String → Json → Fields → Fields

-- What the code takes from Python: `json.loads`, or none where it raises; `json.dumps`; `str` of a
-- value that is no text; `float` of a text, or none; and the pairs of `dict` of a value that is no
-- dict, or none.
pub record Python : Type 0 where
  pub loads : String → Option Json
  pub dumps : Json → String
  pub str_of : Json → String
  pub float_of : String → Option Float
  pub pairs_of : Json → Option (List (String × Json))

-- `d[key]` of the fields of a dict
unfoldable pub find_field : String → Fields → Option Json
find_field key end = none
find_field key (field k v fs) = if k == key then some v else find_field key fs

-- `value[key]`, or none where it raises.
unfoldable pub get_field : String → Json → Option Json
unfolding find_field
get_field key (obj fs) = find_field key fs
get_field key _ = none

-- `value[0]`. A text has a first character too, but that has no fields.
unfoldable pub first_item : Json → Option Json
first_item (arr (cons x xs)) = some x
first_item _ = none

-- `str(value)`
unfoldable pub text_of : Python → Json → String
text_of py (str s) = s
text_of py j = py.str_of j

-- `bool(value)`
unfoldable pub is_true : Json → Bool
unfolding nat_eq string_eq
is_true null = false
is_true (bool b) = b
is_true (num nan) = true
is_true (num (minus a)) = true
is_true (num (plus a)) = not (a.num == 0)
is_true (str s) = not (s == "")
is_true (arr nil) = false
is_true (arr (cons x xs)) = true
is_true (obj end) = false
is_true (obj (field k v fs)) = true

-- `float(value)`, or none where it raises.
unfoldable pub number_of : Python → Json → Option Float
number_of py (num x) = some x
number_of py (bool true) = some (plus (fraction 1 1))
number_of py (bool false) = some (plus (fraction 0 1))
number_of py (str s) = py.float_of s
number_of py _ = none

unfoldable pub field_pairs : Fields → List (String × Json)
field_pairs end = []
field_pairs (field k v fs) = (k, v) ∷ field_pairs fs

-- The pairs of `dict(value)`, their keys as texts.
unfoldable pub dict_pairs : Python → Json → Option (List (String × Json))
unfolding field_pairs
dict_pairs py (obj fs) = some (field_pairs fs)
dict_pairs py j = py.pairs_of j

infixl 5 ◌>>=◌
abbrev pub ◌>>=◌ {ℓ κ} : {A : Type ℓ} {B : Type κ} → Option A → (A → Option B) → Option B
none >>= f = none
some a >>= f = f a
