-- ===== src/Api/Client.antt =====
-- service/api/client/client.go: the rpc clients of the other nodes, and the calls through them.
pub mod Registry
use gim.Base.{
  ℕ, String, ◌<>◌, Bool, true, false, Option, none, some, [], ◌==◌, string_eq, nat_eq,
  if◌then◌else◌,
}
use gim.Base.Dict.{Dict, lookup, insert, erase}
use gim.ImErr.{Err, Result, ok, err, im_err, err_rpc_client_not_found, ok_code}
use gim.Types.Message.{Bytes}
use gim.Types.Server.{Server, server_string}
use gim.Ws.External.{External}
use gim.Ws.Node.{Node, RpcClient, RpcClients, with_ext}

-- `InitClient`, up to the discovery.
unfoldable pub init_clients : String → RpcClients
init_clients service_name = record { service_name = service_name; clients = [] }

is_current : Option RpcClient → String → Bool
is_current none addr = false
is_current (some old) addr = old.addr == addr

found_client : Option RpcClient → Result RpcClient
found_client none = err (im_err err_rpc_client_not_found)
found_client (some c) = ok c

module _ {E : External} where
  put_rpc_client : String → String → Result ℕ × E.State → Node E → Node E
  put_rpc_client key addr (err e, s) n = with_ext s n
  put_rpc_client key addr (ok cli, s) n = record n {
    rpc_clients = record (n.rpc_clients) {
      clients = insert key (record { cli = cli; addr = addr }) n.rpc_clients.clients;
    };
    ext = s;
  }

  -- A client is made only for a new key or a new address; if that fails, the old one stays.
  unfoldable pub on_register : String → String → Node E → Node E
  unfolding is_current put_rpc_client
  on_register key addr n =
      if is_current (lookup key n.rpc_clients.clients) addr
      then n
      else put_rpc_client key addr (E.new_rpc_client addr n.ext) n

  unfoldable pub on_unregister : String → Node E → Node E
  on_unregister key n = record n {
    rpc_clients = record (n.rpc_clients) { clients = erase key n.rpc_clients.clients };
  }

  unfoldable pub get_client_by_addr : String → Node E → Result RpcClient
  unfolding found_client
  get_client_by_addr addr n =
      found_client (lookup (n.rpc_clients.service_name <> addr) n.rpc_clients.clients)

  -- Only `retCode` 200 is a success; another code is logged, and no error is returned.
  unfoldable pub code_answer : Result ℕ × E.State → Node E → (Bool × Option Err) × Node E
  code_answer (err e, s) n = ((false, some e), with_ext s n)
  code_answer (ok code, s) n = ((code == ok_code, none), with_ext s n)

  unfoldable pub done_answer : Result Bool × E.State → Node E → (Bool × Option Err) × Node E
  done_answer (err e, s) n = ((false, some e), with_ext s n)
  done_answer (ok _, s) n = ((true, none), with_ext s n)

  bool_answer : Result Bool × E.State → Node E → (Bool × Option Err) × Node E
  bool_answer (err e, s) n = ((false, some e), with_ext s n)
  bool_answer (ok b, s) n = ((b, none), with_ext s n)

  -- Each call looks the client up by the address of the server.
  unfoldable pub with_client :
      Server → (ℕ → Node E → (Bool × Option Err) × Node E) → Node E → (Bool × Option Err) × Node E
  unfolding get_client_by_addr server_string
  with_client server call n = elim (get_client_by_addr (server_string (some server)) n) [
    | err e ↦ ((false, some e), n)
    | ok c ↦ call c.cli n
  ]

  unfoldable pub send_msg_to_user : Server → String → Bytes → Node E → (Bool × Option Err) × Node E
  unfolding with_client code_answer
  send_msg_to_user server uid msg =
      with_client server (λ cli n. code_answer (E.rpc_send_msg_to_user cli uid msg n.ext) n)

  unfoldable pub send_msg_to_user_by_tgid :
      Server → String → String → Bytes → Node E → (Bool × Option Err) × Node E
  unfolding with_client code_answer
  send_msg_to_user_by_tgid server uid tgid msg =
      with_client server
        (λ cli n. code_answer (E.rpc_send_msg_to_user_by_tgid cli uid tgid msg n.ext) n)

  unfoldable pub stop_user_client : Server → String → Node E → (Bool × Option Err) × Node E
  unfolding with_client done_answer
  stop_user_client server uid =
      with_client server (λ cli n. done_answer (E.rpc_stop_user_client cli uid n.ext) n)

  unfoldable pub join_group : Server → String → String → Node E → (Bool × Option Err) × Node E
  unfolding with_client bool_answer
  join_group server uid tgid =
      with_client server (λ cli n. bool_answer (E.rpc_join_group cli uid tgid n.ext) n)

  unfoldable pub out_group : Server → String → String → Node E → (Bool × Option Err) × Node E
  unfolding with_client bool_answer
  out_group server uid tgid =
      with_client server (λ cli n. bool_answer (E.rpc_out_group cli uid tgid n.ext) n)
