-- ===== src/Api/Server.antt =====
-- service/api/server/handler.go: what a node does for a call of another node.
use gim.Base.{ℕ, String, ◌<>◌, Bool, true, Option, none, some}
use gim.ImErr.{Err, ok_code}
use gim.Types.Message.{Bytes}
use gim.Etcd.Discovery.{KeyValue}
use gim.Ws.External.{External}
use gim.Ws.Node.{Node}
use gim.Ws.Proxy.{RunProxy}

ret_code_of : Option Err → ℕ
ret_code_of none = ok_code
ret_code_of (some e) = 0

abbrev pub hello : String
hello = "success:" <> "_aaaa"

-- server.go: the prefix of the entries, and the address of a node.
unfoldable pub server_name : String → String
server_name redis_prefix = redis_prefix <> "/rpc/"

unfoldable pub rpc_addr : String → String → String
rpc_addr server_ip rpc_port = server_ip <> (":" <> rpc_port)

-- service/api/server/server.go: the key under which a node enters itself, with its address.
unfoldable pub entry_of : String → String → KeyValue
entry_of name ip_addr = record { key = name <> ip_addr; val = ip_addr }

module _ {E : External} (proxy : RunProxy E) where
  -- The response, with `retCode`, and the error.
  unfoldable pub send_msg_to_user : String → Bytes → Node E → (ℕ × Option Err) × Node E
  unfolding ret_code_of
  send_msg_to_user uid msg n =
      let (e, n') = proxy.send_msg_to_local_user uid msg n in ((ret_code_of e, e), n')

  unfoldable pub send_msg_to_user_by_tgid :
      String → String → Bytes → Node E → (ℕ × Option Err) × Node E
  unfolding ret_code_of
  send_msg_to_user_by_tgid uid tgid msg n =
      let (e, n') = proxy.send_msg_to_local_user_by_tgid uid tgid msg n in ((ret_code_of e, e), n')

  -- The response is always `true`.
  unfoldable pub stop_user_client : String → Node E → Bool × Node E
  stop_user_client uid n = (true, proxy.stop_local_user_client uid n)

  unfoldable pub join_group : String → String → Node E → Option (Bool × Node E)
  join_group uid tgid n = proxy.join_lock_group uid tgid n

  unfoldable pub out_group : String → String → Node E → Bool × Node E
  out_group uid tgid n = proxy.out_lock_group uid tgid n
