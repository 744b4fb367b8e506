-- ===== src/Types/Response.antt =====
-- pkg/types/response_types.go and request_types.go.
use gim.Base.Dict.{Dict}
use gim.ImErr.{Result, ok, err}
use gim.Base.{
  ℕ, ℤ, pos, String, Bool, Option, none, some, List, [], ◌∷◌, ◌==◌, string_eq, if◌then◌else◌,
}

-- `Type` and `Msg` of `SysError`.
pub record SysError : Type 0 where
  pub kind : ℤ
  pub msg : String

-- A `*SysError` that may be nil.
pub record System : Type 0 where
  pub errror : Option SysError

-- The dynamic values of `interface{}`. A number is held by its JSON text.
mutual
  pub data Any : Type 0 where
    nil : Any
    bool : Bool → Any
    number : String → Any
    text : String → Any
    list : Anys → Any
    object : AData → Any
    system : System → Any

  pub data Anys : Type 0 where
    end : Anys
    item : Any → Anys → Anys

  pub data AData : Type 0 where
    empty : AData
    entry : String → Any → AData → AData

pub record ResponseData : Type 0 where
  pub s : ℤ
  pub a : Option AData

pub record Response : Type 0 where
  pub seq : String
  pub cmd : String
  pub msg_type : ℤ
  pub r_data : Option ResponseData

pub record Request : Type 0 where
  pub seq : String
  pub cmd : String
  pub content : AData

-- `mol` is the field `Mod`, and `param` a map from names to texts.
pub record RequestProxy : Type 0 where
  pub mol : String
  pub ctrl : String
  pub param : Dict String String

abbrev pub msg_type_response : ℤ
msg_type_response = pos 1

abbrev pub msg_type_group : ℤ
msg_type_group = pos 2

abbrev pub msg_type_u2u : ℤ
msg_type_u2u = pos 3

unfoldable pub new_response : String → String → ℤ → Option ResponseData → Response
new_response seq cmd msg_type r_data = record {
  seq = seq;
  cmd = cmd;
  msg_type = msg_type;
  r_data = r_data;
}

-- The first of the variadic arguments, if there is one.
abbrev first_or : ℤ → List ℤ → ℤ
first_or default [] = default
first_or default (x ∷ rest) = x

unfoldable pub new_response_data : Option AData → List ℤ → ResponseData
new_response_data a params = record { s = first_or (pos 1) params; a = a }

unfoldable pub handle_a_data : Any → String → String → AData
handle_a_data ad mol ctrl = entry mol (object (entry ctrl ad empty)) empty

unfoldable pub handle_mol_a_data : Any → String → AData
handle_mol_a_data ad mol = entry mol ad empty

unfoldable pub new_ctrl_response_data : Any → String → String → ResponseData
unfolding new_response_data handle_a_data
new_ctrl_response_data ad mol ctrl = new_response_data (some (handle_a_data ad mol ctrl)) []

unfoldable pub new_mol_response_data : Any → String → ResponseData
unfolding new_response_data handle_mol_a_data
new_mol_response_data ad mol = new_response_data (some (handle_mol_a_data ad mol)) []

unfoldable pub new_system : String → List ℤ → System
new_system msg ty =
    if msg == ""
    then record { errror = none }
    else record { errror = some (record { kind = first_or (pos 0) ty; msg = msg }) }

unfoldable pub new_err_a_data : String → ℤ → AData
unfolding new_system
new_err_a_data msg ty = entry "system" (system (new_system msg (ty ∷ []))) empty

-- `Response.Bytes`, of which `marshal` is json's, and `Response.String`, which drops the error. A
-- text is the list of its bytes.
unfoldable pub response_bytes : (Response → Result (List ℕ)) → Response → Result (List ℕ)
response_bytes marshal r = marshal r

unfoldable pub response_string : (Response → Result (List ℕ)) → Response → List ℕ
response_string marshal r = elim (marshal r) [ err e ↦ [] | ok bytes ↦ bytes ]
