-- ===== src/Types/Message.antt =====
-- pkg/types/msg_types.go: messages to one user, to a group, and on the subscription channel.
use gim.Base.{ℕ, ℤ, String, Option, some, List}
use gim.ImErr.{Result, ok, err}
use gim.Types.Response.{Response, ResponseData, AData, new_response, msg_type_group}

-- `[]byte`
abbrev pub Bytes : Type 0
Bytes = List ℕ

pub record SendMsg : Type 0 where
  pub sync : ℤ
  pub response : Response

unfoldable pub new_send_msg : Response → ℤ → SendMsg
new_send_msg response sync = record { sync = sync; response = response }

pub record GroupMsg : Type 0 where
  pub except_uid : String
  pub msg : Bytes

unfoldable pub new_group_msg : Bytes → String → GroupMsg
new_group_msg msg except_uid = record { except_uid = except_uid; msg = msg }

pub record SubMsg : Type 0 where
  pub tgid : String
  pub tgid_list : List String
  pub mol : String
  pub ctrl : String
  pub content : Option AData
  pub except_uid : String
  pub c_time : ℤ
  pub msg_type : ℤ
  pub to_uid : String

-- `marshal` is `Response.Bytes`, that is `json.Marshal`.
unfoldable pub get_res_data_group_msg :
    (Response → Result Bytes) → ResponseData → String → Result GroupMsg
unfolding new_response new_group_msg
get_res_data_group_msg marshal res_data except_uid =
    elim (marshal (new_response "" "" msg_type_group (some res_data))) [
      | ok bytes ↦ ok (new_group_msg bytes except_uid)
      | err e ↦ err e
    ]
