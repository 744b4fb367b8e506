-- ===== src/Tests/Clients.antt =====
-- Clients, group messages and logins at concrete inputs.
use gim.Ws.Config.{WsConfig, init_config}
use gim.Ws.Config.Capacity.{Completed, init_config-Completed}
use gim.Base.{
  pos, suc, ◌≡◌, refl, String, ◌&&◌, not, [], ◌∷◌, arith, ◌==◌, string_eq, nat_eq, if◌then◌else◌,
  length,
}
use gim.Base.Dict.{lookup, has}
use gim.Types.Message.{GroupMsg}
use gim.Ws.External.{UserOnline}
use gim.Ws.Node.{client_at}
use gim.Ws.TGroup.{user_join, new_t_group_manager, get_or_create_t_group}
use gim.Ws.Client.{safe_send_msg}
use gim.Ws.Client.Loop.{send_msg_loop}
use gim.Ws.Client.Sending.{with_queued, AsyncSend, safe_send_msg-AsyncSend}
use gim.Ws.Client.Writing.{deliver, AtRest, ext_of, send_msg_loop-AtRest, send_msg_loop-deliver}
use gim.Ws.Broadcast.{send_to_users}
use gim.Ws.Broadcast.Delivery.{send_to_users-exactly_once}
use gim.Ws.Proxy.{redis_proxy}
use gim.Ws.Handler.{handler_up, get_uid, msg_code_of}
use gim.Ws.Handler.Login.{LoginDone, SameRegisters, handler_up-LoginDone}
use gim.Ws.Handler.Stops.{redis_proxy-StopKeeps}
use gim.Tests.Groups.{team-Inv}
use gim.Tests.Fixtures.{config, world, node, node-Registered}

safe_send_msg-AsyncSend_example : AsyncSend (1 ∷ []) 0 node (safe_send_msg (1 ∷ []) 2 0 node)
safe_send_msg-AsyncSend_example = safe_send_msg-AsyncSend (1 ∷ []) 0 node

send_msg_loop-AtRest_example :
    AtRest 0 (send_msg_loop (suc (length (client_at 0 node).send_chan.buffer)) 0 node)
send_msg_loop-AtRest_example = send_msg_loop-AtRest 0 node

send_msg_loop-deliver_example :
    ext_of (send_msg_loop (suc (length (client_at 0 node).send_chan.buffer)) 0 node) node.ext
    ≡ deliver world 7 (client_at 0 node).msg_code (client_at 0 node).send_chan.buffer node.ext
send_msg_loop-deliver_example = send_msg_loop-deliver 0 node refl refl

abbrev greeting : GroupMsg
greeting = record { except_uid = "bob"; msg = 1 ∷ [] }

send_to_users-exactly_once_example : client_at 0 (send_to_users 0 greeting node) ≡ (
    if has "ann" (node.t_group_m.heap 0).users && not (◌==◌ {A = String} "ann" "bob")
    then with_queued (client_at 0 node) (1 ∷ [])
    else client_at 0 node)
unfolding user_join get_or_create_t_group new_t_group_manager lookup
send_to_users-exactly_once_example =
    send_to_users-exactly_once 0 greeting "ann" 0 node refl (team-Inv.sound 0).1 node-Registered
      refl (refl, refl, omega arith)

handler_up-LoginDone_example :
    LoginDone 8 (get_uid 8 node) (msg_code_of "1") node (handler_up (redis_proxy world) 8 "1" node)
handler_up-LoginDone_example =
    handler_up-LoginDone (redis_proxy world) redis_proxy-StopKeeps 8 "1" node

abbrev elsewhere : UserOnline
elsewhere = record {
  acc_ip = "10.0.0.2";
  client_arr = "10.0.0.9:4000";
  acc_port = "80";
  rpc_port = "90";
  user_id = "ann";
  rand_uuid = "01G";
}

redis_proxy-StopKeeps_example :
    SameRegisters node ((redis_proxy world).stop_user_client elsewhere node)
redis_proxy-StopKeeps_example = redis_proxy-StopKeeps elsewhere node

abbrev unset : WsConfig
unset = record config { client_msg_chan_max = pos 0 }

init_config-Completed_example :
    Completed (pos 0) (init_config unset).client_msg_chan_max
    × Completed (pos 4) (init_config unset).group_msg_chan_max
    × (record (init_config unset) { client_msg_chan_max = pos 0; group_msg_chan_max = pos 4 }
        ≡ unset)
init_config-Completed_example = init_config-Completed unset
