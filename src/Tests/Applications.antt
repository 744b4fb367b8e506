-- ===== src/Tests/Applications.antt =====
-- `cat` on a node with the example application.
use gim.Base.{◌≡◌, refl, true, String, ◌&&◌, ◌||◌, ◌==◌, some, [], string_eq, nat_eq}
use gim.Base.Dict.{lookup, insert}
use gim.Examples.Server.{on_open, on_open-NodeInv, handle_request_msg, handle_request_msg-KeepsTo}
use gim.Ws.Cache.{get_set_user_online_info}
use gim.Ws.Client.{CloseHook}
use gim.Ws.Client.Lifecycle.{IsGone}
use gim.Ws.Handler.{RequestHook, close_conn, handler_on_close, handler_up}
use gim.Ws.Handler.Stops.{redis_proxy-StopKeeps}
use gim.Ws.Node.{Node, new_client_manager}
use gim.Ws.Proxy.{redis_proxy}
use gim.Ws.Safety.Hooks.{Serves, idle, after, event, called, Serves-IsGone}
use gim.Ws.Safety.Invariant.{NodeInv}
use gim.Ws.Safety.Steps.{logs_in, here, then_one, drops}
use gim.Ws.TGroup.Members.{is_member}
use gim.Tests.Events.{empty_node, with_cat, with_cat-NodeInv, cat_has_entry, peers}
use gim.Tests.Fixtures.{world, config}

abbrev asked : RequestHook world
asked = some handle_request_msg

-- At the end of a connection the application drops another one.
abbrev told : CloseHook world
told = some (λ p n. (true, close_conn 9 n))

cat_served : Serves (redis_proxy world) asked told empty_node with_cat
cat_served = after idle (event (logs_in 8 "1"))

Serves-IsGone_example :
    NodeInv with_cat
    × ((m : Node world) × IsGone 0 with_cat m
        × NodeInv m
        × (handler_on_close told 8 with_cat ≡ called told 0 m))
Serves-IsGone_example =
    Serves-IsGone (redis_proxy world) redis_proxy-StopKeeps asked told
      (handle_request_msg-KeepsTo (redis_proxy world)) (λ p n. then_one here (drops 9)) config
      "10.0.0.1" peers [] with_cat 8 0 cat_served cat_has_entry

cat_connected : lookup 8 with_cat.client_m.conn_client_idx ≡ some 0
unfolding handler_up lookup new_client_manager get_set_user_online_info insert
cat_connected = refl

cat_entered : lookup "cat" with_cat.client_m.clients ≡ some 0
unfolding handler_up lookup new_client_manager get_set_user_online_info insert
cat_entered = refl

on_open-NodeInv_example :
    (n' : Node world) × (on_open 8 with_cat ≡ some n')
    × NodeInv n'
    × ((j u : String)
        → is_member j u n'.t_group_m
          ≡ ((j == "ccc" || j == "ccc1") && u == "cat") || is_member j u with_cat.t_group_m)
on_open-NodeInv_example =
    on_open-NodeInv "cat" 8 0 with_cat with_cat-NodeInv cat_connected cat_entered
