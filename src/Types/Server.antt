-- ===== src/Types/Server.antt =====
-- pkg/types/server_types.go: the address of a node, and what it reports of itself.
use gim.Base.{ℕ, String, ◌<>◌, Option, none, some, List, []}

pub record Server : Type 0 where
  pub ip : String
  pub port : String

unfoldable pub new_server : String → String → Server
new_server ip port = record { ip = ip; port = port }

-- `(*Server).String`, also on a nil pointer.
unfoldable pub server_string : Option Server → String
server_string none = ""
server_string (some s) = s.ip <> (":" <> s.port)

pub record WsManagerInfo : Type 0 where
  pub clients_len : ℕ
  pub t_group_len : ℕ

pub record WsMsgList : Type 0 where
  pub msg_num : ℕ
  pub consume_num : ℕ
  pub free_c_num : ℕ

-- Percentages are floats, of which the code only keeps the value: `F` is their type.
pub record SysInfo (F : Type 0) : Type 0 where
  pub num_goroutine : ℕ
  pub cpu_percent : F
  pub mem_percent : F
  pub num_cpu : ℕ
  pub manager_info : Option WsManagerInfo
  pub sub_msg_list : Option WsMsgList
  pub name : String
  pub version : String

abbrev no_clients : WsManagerInfo
no_clients = record { clients_len = 0; t_group_len = 0 }

module _ (F : Type 0) (zero_percent : F) where
  unfoldable pub new_sys_info : SysInfo F
  new_sys_info = record {
    num_goroutine = 0;
    cpu_percent = zero_percent;
    mem_percent = zero_percent;
    num_cpu = 0;
    manager_info = some no_clients;
    sub_msg_list = none;
    name = "";
    version = "";
  }

-- The embedded `SysInfo` is the field `sys_info`.
pub record SycCollectInfo (F : Type 0) : Type 0 where
  pub sys_info : SysInfo F
  pub node_num : ℕ
  pub node_list : List (SysInfo F)

module _ (F : Type 0) (zero_percent : F) where
  unfoldable pub new_syc_collect_info : SycCollectInfo F
  unfolding new_sys_info
  new_syc_collect_info = record {
    sys_info = new_sys_info F zero_percent;
    node_num = 0;
    node_list = [];
  }
