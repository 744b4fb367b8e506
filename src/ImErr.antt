-- ===== src/ImErr.antt =====
-- pkg/im_err/im_error.go: the error codes and their texts, and Go's `error` results as values.
use gim.Base.{ℕ, String, Option, none, some, [], ◌∷◌, string_eq, nat_eq}
use gim.Base.Dict.{Dict, lookup}

pub record ImError : Type 0 where
  pub code : ℕ
  pub msg : String

-- Go's `error`: an `*ImError`, or an error of a library with its text.
pub data Err : Type 0 where
  im_error : ImError → Err
  other : String → Err

-- `err.Error()`
unfoldable pub error : Err → String
error (im_error e) = e.msg
error (other text) = text

abbrev pub ok_code : ℕ
ok_code = 200

abbrev pub err_user_offline : ℕ
err_user_offline = 10001

abbrev pub err_user_online : ℕ
err_user_online = 10002

abbrev pub err_rpc_client_not_found : ℕ
err_rpc_client_not_found = 20001

abbrev pub err_params : ℕ
err_params = 20002

abbrev pub err_json : ℕ
err_json = 20003

abbrev pub err_no_handle_msg : ℕ
err_no_handle_msg = 20004

abbrev pub err_send_chan_full : ℕ
err_send_chan_full = 20005

abbrev pub code_msg : Dict ℕ String
code_msg =
    (err_user_offline, "USER_OFFLINE")
    ∷ (err_user_online, "USER_ONLINE")
    ∷ (err_rpc_client_not_found, "RPC_CLIENT_NOT_FOUND")
    ∷ (err_params, "PARAMS_ERROR")
    ∷ (err_json, "JSON_ERROR")
    ∷ (err_no_handle_msg, "NO_HANDLE_MSG")
    ∷ (err_send_chan_full, "SEND_CHAN_FULL")
    ∷ []

-- A missing key of `CodeMsg` reads as the empty text.
abbrev text_of : Option String → String
text_of none = ""
text_of (some text) = text

unfoldable pub new_im_error : ℕ → ImError
unfolding lookup
new_im_error code = record { code = code; msg = text_of (lookup code code_msg) }

-- `return im_err.NewImError(code)`
abbrev pub im_err : ℕ → Err
im_err code = im_error (new_im_error code)

-- The pair `(value, err)` of a Go function that gives a value only without an error.
pub data Result {ℓ} (A : Type ℓ) : Type ℓ where
  ok : A → Result A
  err : Err → Result A
