-- ===== src/Ws/Proxy/Agreement.antt =====
-- service/ws: the proxy of a cluster compared with the proxy of a single node.
use gim.Base.{pos, ◌≡◌, refl, ◌∙◌, ap, String, true, false, none, arith, string_eq, ◌≢◌}
use gim.Types.Response.{ResponseData}
use gim.Types.Message.{Bytes, SubMsg}
use text.Mathlib.TextEquality.{eq_iff}
use gim.Ws.External.{External}
use gim.Ws.Node.{Node}
use gim.Ws.Cache.{get_user_rpc_server}
use gim.Ws.ClientManager.{has_user}
use gim.Api.Client as Rpc
use gim.Ws.LocalProxy as Local
use gim.Ws.RedisProxy as Redis
use gim.Ws.RedisProxy.{group_sub_msg, publish_global_msg, global_key}
use gim.Ws.Proxy.{RunProxy, local_proxy, redis_proxy}
use gim.Ws.SubMsgs.{
  response_data_of, handle_decoded, route, handle_sub_msg, send_res_data_to_group, node_of,
}

module _ {E : External} where
  -- Two proxies do the same for a user.
  pub record AgreeOn (uid : String) (n : Node E) (a b : RunProxy E) : Type 0 where
    pub data_to_user :
        (r : ResponseData) → a.send_res_data_to_user uid r n ≡ b.send_res_data_to_user uid r n
    pub data_by_tgid :
        (tgid : String) (r : ResponseData)
        → a.send_res_data_to_user_by_tgid uid tgid r n
          ≡ b.send_res_data_to_user_by_tgid uid tgid r n
    pub msg_to_user : (m : Bytes) → a.send_msg_to_user uid m n ≡ b.send_msg_to_user uid m n
    pub msg_by_tgid :
        (tgid : String) (m : Bytes)
        → a.send_msg_to_user_by_tgid uid tgid m n ≡ b.send_msg_to_user_by_tgid uid tgid m n
    pub joins : (tgid : String) → a.join_group uid tgid n ≡ b.join_group uid tgid n
    pub outs : (tgid : String) → a.out_group uid tgid n ≡ b.out_group uid tgid n

  -- For a user of this node the proxy of a cluster does what that of a single node does.
  pub redis-local-AgreeOn :
      (uid : String) (n : Node E)
      → has_user uid n ≡ true
      → AgreeOn uid n (redis_proxy E) (local_proxy E)
  unfolding Redis.send_res_data_to_user Redis.send_res_data_to_user_by_tgid Redis.send_msg_to_user
      Redis.send_msg_to_user_by_tgid Redis.join_group Redis.out_group
      Local.send_msg_to_local_user_by_tgid
  redis-local-AgreeOn uid n here = record {
    data_to_user = λ r. ground arith;
    data_by_tgid = λ tgid r. ground arith;
    msg_to_user = λ m. ground arith;
    msg_by_tgid = λ tgid m. ground arith;
    joins = λ tgid. ground arith;
    outs = λ tgid. ground arith;
  }

  -- What was published for a group reaches the group of each node, but with status 1.
  response_data_of-group_sub_msg :
      (gid : String) (r : ResponseData) (except_uid : String) (n : Node E)
      → response_data_of (group_sub_msg gid r except_uid n) ≡ record r { s = pos 1 }
  unfolding response_data_of group_sub_msg
  response_data_of-group_sub_msg gid r except_uid n = ground arith

  group_route :
      (proxy : RunProxy E) (gid : String) (r : ResponseData) (except_uid : String) (n n' : Node E)
      → gid ≢ ""
      → route proxy (group_sub_msg gid r except_uid n) n'
        ≡ send_res_data_to_group proxy gid
            (record r { s = pos 1 })
            (group_sub_msg gid r except_uid n)
            n'
  unfolding route group_sub_msg
  group_route proxy gid r except_uid n n' named =
      ground (arith, eq_iff gid "", response_data_of-group_sub_msg gid r except_uid n)

  group_send_one :
      (proxy : RunProxy E) (gid : String) (r : ResponseData) (except_uid : String) (n n' : Node E)
      → send_res_data_to_group proxy gid
          (record r { s = pos 1 })
          (group_sub_msg gid r except_uid n)
          n'
        ≡ node_of (proxy.send_res_data_to_local_group gid (record r { s = pos 1 }) except_uid n')
  unfolding send_res_data_to_group group_sub_msg
  group_send_one proxy gid r except_uid n n' = refl

  handle_decoded_ok :
      (proxy : RunProxy E) (m : SubMsg) (n : Node E)
      → handle_decoded proxy (m, none) n ≡ route proxy m n
  unfolding handle_decoded
  handle_decoded_ok proxy m n = refl

  -- A group message that one node publishes is, on each node that gets it, a message to the node's
  -- own group, with the same data and exception, and status 1. Json is taken to bring it back.
  pub handle_sub_msg-published :
      (proxy : RunProxy E) (gid : String) (r : ResponseData) (except_uid : String) (n n' : Node E)
      (bytes : Bytes)
      → gid ≢ ""
      → E.unmarshal_sub_msg bytes ≡ (group_sub_msg gid r except_uid n, none)
      → handle_sub_msg proxy bytes n'
        ≡ node_of (proxy.send_res_data_to_local_group gid (record r { s = pos 1 }) except_uid n')
  unfolding handle_sub_msg
  handle_sub_msg-published proxy gid r except_uid n n' bytes named back =
      ap (λ d. handle_decoded proxy d n') back
      ∙ (handle_decoded_ok proxy (group_sub_msg gid r except_uid n) n'
          ∙ (group_route proxy gid r except_uid n n' named
              ∙ group_send_one proxy gid r except_uid n n'))

  -- What a call of another node leaves of this one.
  abbrev pub SameHere : Node E → Node E → Type 0
  SameHere n n' =
      (n'.client_m ≡ n.client_m) × (n'.t_group_m ≡ n.t_group_m) × (n'.rpc_clients ≡ n.rpc_clients)

  -- For a user that is not here, no client and no group of this node is touched.
  pub redis-SameHere :
      (uid tgid : String) (m : Bytes) (r : ResponseData) (n : Node E)
      → has_user uid n ≡ false
      → SameHere n ((redis_proxy E).send_msg_to_user uid m n).1
        × SameHere n ((redis_proxy E).send_msg_to_user_by_tgid uid tgid m n).1
        × SameHere n ((redis_proxy E).send_res_data_to_user uid r n).1
        × SameHere n ((redis_proxy E).send_res_data_to_user_by_tgid uid tgid r n).1
        × SameHere n ((redis_proxy E).out_group uid tgid n).1
  unfolding Redis.send_res_data_to_user Redis.send_res_data_to_user_by_tgid Redis.send_msg_to_user
      Redis.send_msg_to_user_by_tgid Redis.out_group get_user_rpc_server Rpc.send_msg_to_user
      Rpc.send_msg_to_user_by_tgid Rpc.out_group
  redis-SameHere uid tgid m r n away = ground arith
