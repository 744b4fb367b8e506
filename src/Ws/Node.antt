-- ===== src/Ws/Node.antt =====
-- The state of one node: `Config`, `serverIp`, `ClientM`, `TGroupM`, the rpc clients, and what
-- lies outside. A `*Client` is a number, and `heap` holds the objects, also those that are in no map.
use gim.Base.{ℕ, String, Bool, false, [], update, nat_eq}
use gim.Base.Dict.{Dict}
use gim.Base.Chan.{Chan, make}
use gim.Types.Message.{Bytes}
use gim.Ws.Config.{WsConfig}
use gim.Ws.External.{External, Opcode, binary_frame}
use gim.Ws.TGroup.{TGroupManager}

-- `ClientState`: 1 is `online`, 2 is `offline`.
pub data ClientState : Type 0 where
  online offline : ClientState

pub record Client : Type 0 where
  pub socket : ℕ
  pub user_id : String
  pub rand_uuid : String
  pub state : ClientState
  pub first_time : ℕ
  pub heartbeat_time : ℕ
  pub t_group : Dict String Bool
  pub msg_code : Opcode
  pub send_chan : Chan Bytes
  pub close_once : Bool

pub record ClientManager : Type 0 where
  pub clients : Dict String ℕ
  pub conn_client_idx : Dict ℕ ℕ
  pub heap : ℕ → Client
  pub next : ℕ

-- service/api/client: the registered rpc clients, by their etcd key. `cli` is the kitex client.
pub record RpcClient : Type 0 where
  pub cli : ℕ
  pub addr : String

pub record RpcClients : Type 0 where
  pub service_name : String
  pub clients : Dict String RpcClient

pub record Node (E : External) : Type 0 where
  pub config : WsConfig
  pub server_ip : String
  pub client_m : ClientManager
  pub t_group_m : TGroupManager
  pub rpc_clients : RpcClients
  pub ext : E.State

module _ {E : External} where
  abbrev pub client_at : ℕ → Node E → Client
  client_at p n = n.client_m.heap p

  abbrev pub put_client : ℕ → Client → Node E → Node E
  put_client p c n = record n {
    client_m = record (n.client_m) { heap = update n.client_m.heap p c };
  }

  abbrev pub with_ext : E.State → Node E → Node E
  with_ext s n = record n { ext = s }

abbrev no_client : Client
no_client = record {
  socket = 0;
  user_id = "";
  rand_uuid = "";
  state = offline;
  first_time = 0;
  heartbeat_time = 0;
  t_group = [];
  msg_code = binary_frame;
  send_chan = make 0;
  close_once = false;
}

-- No client is made yet: what `heap` holds is not reached.
unfoldable pub new_client_manager : ClientManager
new_client_manager = record { clients = []; conn_client_idx = []; heap = λ _. no_client; next = 0 }
