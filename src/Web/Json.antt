-- ===== src/Web/Json.antt =====
-- ais_server/web/api.py: values of JSON as Python objects, and the conversions that the requests use.
use ais_server.Prelude.{Bool, true, false, not, Option, none, some, [], ◌∷◌, if◌then◌else◌}
use ais_server.Prelude.Text.{Text}
use ais_server.Prelude.Int.{ℤ, pos, int_eqb}
use ais_server.Prelude.Number.{int_decimal}
use ais_server.Prelude.Dict.{Dict}

pub data Json : Type 0 where
  null : Json
  boolean : Bool → Json
  integer : ℤ → Json
  -- A finite float: what `int` makes of it, and whether it is zero.
  float : ℤ → Bool → Json
  text : Text → Json
  -- A list or a mapping, and whether it is empty.
  container : Bool → Json

abbrev pub is_empty : Text → Bool
is_empty [] = true
is_empty (c ∷ s) = false

-- `bool(v)`
abbrev pub truth : Json → Bool
truth null = false
truth (boolean b) = b
truth (integer i) = not (int_eqb i (pos 0))
truth (float i is_zero) = not is_zero
truth (text s) = not (is_empty s)
truth (container empty) = not empty

-- What `int(v)` returns or raises.
pub data IntResult : Type 0 where
  value : ℤ → IntResult
  value_error : IntResult
  type_error : IntResult

abbrev pub parsed : Option ℤ → IntResult
parsed none = value_error
parsed (some i) = value i

abbrev pub bit : Bool → ℤ
bit true = pos 1
bit false = pos 0

unfoldable pub to_int : Json → IntResult
unfolding int_decimal
to_int null = type_error
to_int (boolean b) = value (bit b)
to_int (integer i) = value i
to_int (float i is_zero) = value i
to_int (text s) = parsed (int_decimal s)
to_int (container empty) = type_error

-- `get_json(silent=True) or {}`: a mapping, or another value that is true.
pub data Body : Type 0 where
  mapping : Dict Text Json → Body
  no_mapping : Body

-- `data.get(key, default)`
abbrev pub get_or : Option Json → Json → Json
get_or none default = default
get_or (some v) default = v

-- `v or w`
abbrev pub json_or : Json → Json → Json
json_or v w = if truth v then v else w
