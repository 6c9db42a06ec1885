-- ===== src/Web/Answer.antt =====
-- ais_server/web/api.py: the exceptions of a request on endpoints, what it reads from the JSON, and the
-- answers.
use ais_server.Prelude.{ℕ, Bool, true, false, Option, none, some, map}
use ais_server.Prelude.Text.{Text, text_eq, is_space, strip, lower}
use ais_server.Prelude.Int.{ℤ}
use ais_server.Prelude.Dict
use ais_server.Prelude.Dict.{Dict}
use ais_server.Web.Json.{Json, text, IntResult, value}

-- The exceptions of `endpoints_add`: `KeyError`, and any other.
pub data Failure : Type 0 where
  key_error : Text → Failure
  exception : Failure

pub data Result (A : Type 0) : Type 0 where
  ok : A → Result A
  raised : Failure → Result A

infixl 5 ◌>>=◌ ◌>>◌
abbrev pub ◌>>=◌ : {A B : Type 0} → Result A → (A → Result B) → Result B
ok a >>= f = f a
raised e >>= f = raised e

abbrev pub ◌>>◌ : {B : Type 0} → Result (Unit {0}) → Result B → Result B
m >> k = m >>= λ _. k

abbrev pub found : Text → Option Json → Result Json
found key none = raised (key_error key)
found key (some v) = ok v

-- `data[key]`
abbrev pub field : Dict Text Json → Text → Result Json
field body key = found key (Dict.get body key)

-- `v.strip()` and `v.lower()`, for texts only
abbrev pub stripped : Json → Result Text
stripped (text s) = ok (strip is_space s)
stripped _ = raised exception

abbrev pub lowered : Json → Result Text
lowered (text s) = ok (map lower s)
lowered _ = raised exception

abbrev pub int_or_raise : IntResult → Result ℤ
int_or_raise (value i) = ok i
int_or_raise _ = raised exception

abbrev pub bound_or_raise : Option (Option Text) → Result (Option Text)
bound_or_raise none = raised exception
bound_or_raise (some path) = ok path

abbrev pub guard : Bool → Result (Unit {0})
guard true = ok tt
guard false = raised exception

pub record NewEndpoint : Type 0 where
  pub name : Text
  pub host : Text
  pub port : ℤ
  pub protocol : Text
  pub path : Option Text
  pub enabled : Bool
  pub broadcast : Bool

pub data Answer : Type 0 where
  added : ℕ → Answer
  missing_field : Text → Answer
  invalid : Answer
  bad_port : Answer
  changed : Bool → Answer
  not_found : Answer
  tested : Bool → Text → Answer
  -- An exception leaves the request.
  server_error : Answer

abbrev pub status : Answer → ℕ
status (added id) = 200
status (missing_field key) = 400
status invalid = 400
status bad_port = 400
status (changed b) = 200
status not_found = 404
status (tested b message) = 200
status server_error = 500

abbrev pub refused : Failure → Answer
refused (key_error key) = missing_field key
refused exception = invalid
