-- ===== src/Tests/Cluster.antt =====
-- The proxies and the subscription at concrete inputs.
use gim.Base.{pos, ◌≡◌, refl, none, [], ◌∷◌, arith, string_eq}
use text.Mathlib.TextEquality.{eq_iff}
use gim.Types.Response.{ResponseData}
use gim.Ws.RedisProxy.{group_sub_msg}
use gim.Ws.Proxy.{redis_proxy}
use gim.Ws.Proxy.Agreement.{handle_sub_msg-published}
use gim.Ws.SubMsgs.{handle_sub_msg, node_of}
use gim.Tests.Fixtures.{world, node}

abbrev failed_data : ResponseData
failed_data = record { s = pos 7; a = none }

handle_sub_msg-published_example :
    handle_sub_msg (redis_proxy world) (4 ∷ []) node
    ≡ node_of (
        (redis_proxy world).send_res_data_to_local_group "team"
          (record failed_data { s = pos 1 })
          "ann"
          node)
unfolding group_sub_msg
handle_sub_msg-published_example =
    handle_sub_msg-published (redis_proxy world) "team" failed_data "ann" node node (4 ∷ [])
      (λ e. ground (arith, e, eq_iff "team" "")) refl
