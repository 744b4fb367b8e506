-- ===== src/Ws/External.antt =====
-- What the service calls and does not implement: websocket connections (gws), redis, the other
-- nodes (kitex), the clock, ulid, and encoding/json. `State` is all that these keep.
pub mod Laws
use gim.Base.{ℕ, ℤ, String, Bool, Option}
use gim.ImErr.{Err, Result, other}
use gim.Types.Response.{Response, Request, Any}
use gim.Types.Message.{Bytes, SubMsg}

-- `gws.OpcodeText` and `gws.OpcodeBinary`.
pub data Opcode : Type 0 where
  text_frame binary_frame : Opcode

-- service/ws/handler_ws.go: who is online where, as redis holds it.
pub record UserOnline : Type 0 where
  pub acc_ip : String
  pub client_arr : String
  pub acc_port : String
  pub rpc_port : String
  pub user_id : String
  pub rand_uuid : String

-- `missing` is the error `redis.Nil`.
pub data Reply : Type 0 where
  value : Bytes → Reply
  missing : Reply
  failed : Err → Reply

abbrev pub redis_nil : Err
redis_nil = other "redis: nil"

-- Connections and kitex clients are pointers, that is numbers. A call of another node answers with
-- the field of its response, `retCode` or `res`.
pub record External : Type 1 where
  pub State : Type 0
  pub write_message : ℕ → Opcode → Bytes → State → Option Err × State
  pub close_conn : ℕ → State → State
  pub set_read_deadline : ℕ → ℕ → State → State
  pub session_uid : ℕ → State → Option Any
  pub remote_addr : ℕ → State → String
  pub unix_time : State → ℕ
  pub unix_milli : State → ℤ
  pub unique_id : State → String × State
  pub redis_get_set : String → Bytes → State → Reply × State
  pub redis_get : String → State → Reply × State
  pub redis_expire : String → ℕ → State → Option Err × State
  pub redis_del : String → State → Option Err × State
  pub redis_publish : String → Bytes → State → Option Err × State
  pub new_rpc_client : String → State → Result ℕ × State
  pub rpc_send_msg_to_user : ℕ → String → Bytes → State → Result ℕ × State
  pub rpc_send_msg_to_user_by_tgid : ℕ → String → String → Bytes → State → Result ℕ × State
  pub rpc_stop_user_client : ℕ → String → State → Result Bool × State
  pub rpc_join_group : ℕ → String → String → State → Result Bool × State
  pub rpc_out_group : ℕ → String → String → State → Result Bool × State
  pub marshal_response : Response → Result Bytes
  pub unmarshal_request : Bytes → Request × Option Err
  pub marshal_user_online : UserOnline → Result Bytes
  pub unmarshal_user_online : Bytes → UserOnline × Option Err
  pub marshal_sub_msg : SubMsg → Result Bytes
  pub unmarshal_sub_msg : Bytes → SubMsg × Option Err
