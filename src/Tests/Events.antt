-- ===== src/Tests/Events.antt =====
-- A node that starts, on which `cat` logs in, joins a group and goes away.
use gim.Base.{string_eq, ◌≡◌, refl, Bool, none, some, [], ◌∷◌}
use gim.Base.Dict.{lookup, insert}
use gim.Ws.Node.{Node, RpcClients, new_client_manager}
use gim.Ws.Cache.{get_set_user_online_info}
use gim.Ws.LocalProxy.{join_lock_group}
use gim.Ws.Proxy.{redis_proxy}
use gim.Ws.Handler.{get_uid, handler_up, RequestHook, answer}
use gim.Ws.Handler.Stops.{redis_proxy-StopKeeps}
use gim.Ws.Safety.Invariant.{NodeInv, new_node, new_node-NodeInv}
use gim.Ws.Safety.Groups.{join_lock_group-NodeInv}
use gim.Ws.Safety.Steps.{logs_in, Reaches, here, then_one, Reaches-NodeInv}
use gim.Ws.Client.{safe_send_msg}
use gim.Tests.Fixtures.{world, config}

abbrev pub peers : RpcClients
peers = record { service_name = "gim/rpc/"; clients = [] }

abbrev pub empty_node : Node world
empty_node = new_node config "10.0.0.1" peers []

abbrev pub with_cat : Node world
with_cat = handler_up (redis_proxy world) 8 "1" empty_node

cat_logs_in : Reaches (redis_proxy world) empty_node with_cat
cat_logs_in = then_one here (logs_in 8 "1")

empty_node-NodeInv : NodeInv empty_node
empty_node-NodeInv = new_node-NodeInv config "10.0.0.1" peers []

Reaches-NodeInv_example : NodeInv with_cat
Reaches-NodeInv_example =
    Reaches-NodeInv (redis_proxy world) redis_proxy-StopKeeps empty_node with_cat cat_logs_in
      empty_node-NodeInv

pub cat_has_entry : lookup (get_uid 8 with_cat) with_cat.client_m.clients ≡ some 0
unfolding handler_up lookup new_client_manager get_set_user_online_info insert
cat_has_entry = refl

pub with_cat-NodeInv : NodeInv with_cat
with_cat-NodeInv =
    Reaches-NodeInv (redis_proxy world) redis_proxy-StopKeeps empty_node with_cat cat_logs_in
      empty_node-NodeInv

join_lock_group-NodeInv_example :
    (b : Bool) × (n' : Node world) × (join_lock_group "cat" "team" with_cat ≡ some (b, n'))
    × NodeInv n'
join_lock_group-NodeInv_example = join_lock_group-NodeInv "cat" "team" with_cat with_cat-NodeInv

-- An application that sends a message back, and has nothing to answer.
abbrev pub echo : RequestHook world
echo = some (λ p request n. answer none (safe_send_msg (7 ∷ []) 2 p n).1)
