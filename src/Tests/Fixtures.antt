-- ===== src/Tests/Fixtures.antt =====
-- A concrete outside world, and a node with one group and two clients.
use gim.Base.{
  ◌≡◌, refl, pos, String, true, false, ◌&&◌, ◌||◌, Option, none, some, List, [], ◌∷◌, ◌++◌, arith,
  ◌==◌, string_eq, nat_eq, if◌then◌else◌, ◌∙◌,
}
use text.Mathlib.TextEquality.{eq_iff}
use gim.Base.Dict.{lookup, insert}
use gim.ImErr.{Err, ok}
use gim.Types.Response.{text as said, empty, msg_type_group}
use gim.Types.Message.{Bytes, SubMsg}
use gim.Ws.Config.{WsConfig, redis}
use gim.Ws.External.{External, binary_frame, missing}
use gim.Ws.Node.{Node, Client, online}
use gim.Ws.TGroup.{new_t_group_manager, get_or_create_t_group}
use gim.Ws.TGroup.Invariant.{new_t_group_manager-Inv}
use gim.Ws.TGroup.Members.{is_member, is_member-new, get_or_create-is_member, user_join-is_member}
use gim.Ws.Client.Leaving.{NotesGroups}
use gim.Ws.Client.Users.{Registered}
use gim.Tests.Groups.{team, made, made-Inv}

-- The message that the other node publishes to `team`.
abbrev pub team_sub_msg : SubMsg
team_sub_msg = record {
  tgid = "team";
  tgid_list = [];
  mol = "";
  ctrl = "";
  content = none;
  except_uid = "ann";
  c_time = pos 5;
  msg_type = msg_type_group;
  to_uid = "";
}

-- What is decoded: a message of one byte does not go to `ann`.
abbrev sub_msg_of : Bytes → SubMsg
sub_msg_of [] = team_sub_msg
sub_msg_of (b ∷ []) = team_sub_msg
sub_msg_of (b ∷ c ∷ rest) = record team_sub_msg { except_uid = "" }

-- The state is what was written. A frame that starts with 0 cannot be written.
abbrev written : Bytes → List Bytes → Option Err × List Bytes
written [] s = (none, s)
written (b ∷ bs) s = (none, s ++ (b ∷ bs) ∷ [])

abbrev pub world : External
world = record {
  State = List Bytes;
  write_message = λ socket code msg s. written msg s;
  close_conn = λ socket s. s ++ (0 ∷ socket ∷ []) ∷ [];
  set_read_deadline = λ socket t s. s;
  session_uid = λ socket s. some (said (if socket == 8 then "cat" else "ann"));
  remote_addr = λ socket s. "10.0.0.9:4000";
  unix_time = λ s. 5;
  unix_milli = λ s. pos 5;
  unique_id = λ s. ("01H", s);
  redis_get_set = λ key v s. (missing, s);
  redis_get = λ key s. (missing, s);
  redis_expire = λ key t s. (none, s);
  redis_del = λ key s. (none, s);
  redis_publish = λ key v s. (none, s);
  new_rpc_client = λ addr s. (ok 3, s);
  rpc_send_msg_to_user = λ cli uid msg s. (ok 200, s);
  rpc_send_msg_to_user_by_tgid = λ cli uid tgid msg s. (ok 200, s);
  rpc_stop_user_client = λ cli uid s. (ok true, s);
  rpc_join_group = λ cli uid tgid s. (ok true, s);
  rpc_out_group = λ cli uid tgid s. (ok true, s);
  marshal_response = λ r. ok (1 ∷ 2 ∷ []);
  unmarshal_request = λ bytes. (record { seq = "1"; cmd = "say"; content = empty }, none);
  marshal_user_online = λ u. ok (3 ∷ []);
  unmarshal_user_online = λ bytes. (
    record {
      acc_ip = "10.0.0.2";
      client_arr = "";
      acc_port = "80";
      rpc_port = "90";
      user_id = "cat";
      rand_uuid = "01G";
    },
    none,
  );
  marshal_sub_msg = λ m. ok (4 ∷ []);
  unmarshal_sub_msg = λ bytes. (sub_msg_of bytes, none);
}

abbrev pub config : WsConfig
config = record {
  run_mode = redis;
  redis_prefix = "gim";
  rpc_port = "90";
  ws_port = "80";
  keep_time = pos 60;
  client_msg_chan_max = pos 8;
  group_msg_chan_max = pos 4;
  version = "1";
}

-- `ann` with one message in her queue.
abbrev pub ann : Client
ann = record {
  socket = 7;
  user_id = "ann";
  rand_uuid = "01F";
  state = online;
  first_time = 1;
  heartbeat_time = 1;
  t_group = ("team", true) ∷ [];
  msg_code = binary_frame;
  send_chan = record { buffer = (9 ∷ []) ∷ []; cap = 8; closed = false };
  close_once = false;
}

-- A node on which only `ann` is.
abbrev pub node : Node world
node = record {
  config = config;
  server_ip = "10.0.0.1";
  client_m = record {
    clients = ("ann", 0) ∷ [];
    conn_client_idx = (7, 0) ∷ [];
    heap = λ p. ann;
    next = 1;
  };
  t_group_m = team;
  rpc_clients = record { service_name = "ws/gim/"; clients = [] };
  ext = [];
}

pub node-Registered : Registered node
unfolding lookup
node-Registered uid p h = ground (arith, eq_iff "ann" uid)

pub team-is_member :
    (gid : String) → is_member gid "ann" team ≡ (◌==◌ {A = String} "team" gid && true || false)
unfolding lookup insert get_or_create_t_group new_t_group_manager
team-is_member gid =
    user_join-is_member 0 "team" "ann" made gid "ann" made-Inv refl
    ∙ ground (
      arith,
      eq_iff "ann" "ann",
      get_or_create-is_member 4 "team" new_t_group_manager gid "ann" new_t_group_manager-Inv,
      is_member-new gid "ann",
    )

pub node-NotesGroups : NotesGroups 0 node
unfolding lookup
node-NotesGroups gid h = ground (arith, team-is_member gid)
