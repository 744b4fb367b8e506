-- ===== src/Sys.antt =====
-- service/sys/sys.go, and the parts of service/api/client/client.go and service/ws/proxy.go that
-- it reads: what the nodes report, and the sum of it.
pub mod Totals
pub mod Cluster
pub mod Page
use gim.Base.{ℕ, zero, suc, ◌+◌, String, Option, none, some, List, [], ◌∷◌}
use gim.Base.Dict.{Dict}
use gim.ImErr.{Err, Result, ok, err, other}
use gim.Types.Server.{SysInfo, SycCollectInfo, WsManagerInfo, WsMsgList, new_syc_collect_info}
use gim.Types.Message.{Bytes}
use gim.Ws.Config.{RunMode, local, redis, other_mode}
use gim.Ws.External.{External}
use gim.Ws.Node.{Node, RpcClient}
use gim.Ws.ClientManager.{get_manager_info}

-- What the machine, the message workers and the other nodes say. `cpu_percent` is the one element
-- of the list that gopsutil gives; `workers` is none before the queue is made.
pub record Machine : Type 1 where
  pub Percent : Type 0
  pub zero_percent : Percent
  pub num_goroutine : ℕ
  pub num_cpu : ℕ
  pub cpu_percent : Result Percent
  pub mem_percent : Result Percent
  pub workers : Option WsMsgList
  pub server_name : String
  pub rpc_get_sys_info : ℕ → Result Bytes
  pub marshal_sys_info : SysInfo Percent → Result Bytes
  pub unmarshal_sys_info : Bytes → SysInfo Percent × Option Err

abbrev percent_or {ℓ} : {A : Type ℓ} → A → Result A → A
percent_or zero_percent (err e) = zero_percent
percent_or zero_percent (ok p) = p

unfoldable pub get_sub_msg_list : Option WsMsgList → WsMsgList
get_sub_msg_list none = record { msg_num = 0; consume_num = 0; free_c_num = 0 }
get_sub_msg_list (some l) = l

module _ (M : Machine) where
  abbrev decoded_info : SysInfo M.Percent × Option Err → Result (SysInfo M.Percent)
  decoded_info (info, some e) = err e
  decoded_info (info, none) = ok info

  -- `rpcClient.GetSysInfo`: the report of another node.
  unfoldable pub rpc_sys_info : ℕ → Result (SysInfo M.Percent)
  rpc_sys_info cli = elim (M.rpc_get_sys_info cli) [
    | err e ↦ err e
    | ok bytes ↦ decoded_info (M.unmarshal_sys_info bytes)
  ]

  -- The report of each registered client: those that fail are passed over.
  unfoldable pub collect_sys_infos : Dict String RpcClient → List (SysInfo M.Percent)
  unfolding rpc_sys_info
  collect_sys_infos [] = []
  collect_sys_infos ((key, c) ∷ rest) = elim (rpc_sys_info c.cli) [
    | err e ↦ collect_sys_infos rest
    | ok info ↦ info ∷ collect_sys_infos rest
  ]

  some_infos : List (SysInfo M.Percent) → Result (List (SysInfo M.Percent))
  some_infos [] = err (other "rpcClient.GetAllSysInfo 没有获取到服务信息")
  some_infos (i ∷ is) = ok (i ∷ is)

  unfoldable pub get_all_sys_info : Dict String RpcClient → Result (List (SysInfo M.Percent))
  unfolding some_infos collect_sys_infos
  get_all_sys_info clients = some_infos (collect_sys_infos clients)

module _ (M : Machine) {E : External} where
  unfoldable pub get_sys_info : Node E → SysInfo M.Percent
  unfolding get_sub_msg_list get_manager_info
  get_sys_info n = record {
    num_goroutine = M.num_goroutine;
    cpu_percent = percent_or M.zero_percent M.cpu_percent;
    mem_percent = percent_or M.zero_percent M.mem_percent;
    num_cpu = M.num_cpu;
    manager_info = some (get_manager_info n);
    sub_msg_list = some (get_sub_msg_list M.workers);
    name = M.server_name;
    version = n.config.version;
  }

  -- `ImRpcImpl.GetSysInfo`, the handler of the rpc server.
  unfoldable pub rpc_server_get_sys_info : Node E → Result Bytes
  unfolding get_sys_info
  rpc_server_get_sys_info n = M.marshal_sys_info (get_sys_info n)

  all_of_mode : RunMode → Node E → Result (List (SysInfo M.Percent))
  unfolding get_sys_info get_all_sys_info
  all_of_mode local n = ok (get_sys_info n ∷ [])
  all_of_mode redis n = get_all_sys_info M n.rpc_clients.clients
  all_of_mode (other_mode k) n = get_all_sys_info M n.rpc_clients.clients

  unfoldable pub get_all_node_sys_info : Node E → Result (List (SysInfo M.Percent))
  unfolding all_of_mode
  get_all_node_sys_info n = all_of_mode n.config.run_mode n

abbrev plus : WsManagerInfo → WsManagerInfo → WsManagerInfo
plus a b = record {
  clients_len = a.clients_len + b.clients_len;
  t_group_len = a.t_group_len + b.t_group_len;
}

module _ {P : Type 0} where
  -- One round of the sum. `none` is the panic of a report that has no manager information.
  add_node :
      SycCollectInfo P
      → SysInfo P
      → Option WsManagerInfo
      → Option WsManagerInfo
      → Option (SycCollectInfo P)
  add_node c i (some a) (some b) = some (record c {
    node_num = suc c.node_num;
    sys_info = record (c.sys_info) {
      version = i.version;
      num_cpu = c.sys_info.num_cpu + i.num_cpu;
      num_goroutine = c.sys_info.num_goroutine + i.num_goroutine;
      manager_info = some (plus a b);
    };
  })
  add_node c i _ _ = none

  unfoldable pub add_nodes : SycCollectInfo P → List (SysInfo P) → Option (SycCollectInfo P)
  unfolding add_node
  add_nodes c [] = some c
  add_nodes c (i ∷ rest) = elim (add_node c i c.sys_info.manager_info i.manager_info) [
    | none ↦ none
    | some c' ↦ add_nodes c' rest
  ]

module _ (M : Machine) {E : External} where
  unfoldable pub get_sys_collect_info : Node E → Option (SycCollectInfo M.Percent)
  unfolding add_nodes get_all_node_sys_info new_syc_collect_info
  get_sys_collect_info n = elim (get_all_node_sys_info M n) [
    | err e ↦ some (new_syc_collect_info M.Percent M.zero_percent)
    | ok infos ↦
        add_nodes (record (new_syc_collect_info M.Percent M.zero_percent) { node_list = infos })
          infos
  ]
