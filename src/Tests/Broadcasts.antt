-- ===== src/Tests/Broadcasts.antt =====
-- A group message on its way to the client of `ann`.
use gim.Base.{
  ℕ, ◌≤◌, ◌≡◌, refl, pos, none, some, [], ◌∷◌, ◌++◌, arith, string_eq, nat_eq, length, suc,
}
use text.Mathlib.TextEquality.{eq_iff}
use gim.Base.Dict.{lookup, insert}
use gim.Types.Message.{new_group_msg}
use gim.Types.Response.{ResponseData}
use gim.Ws.Node.{Node, client_at}
use gim.Ws.TGroup.{new_t_group_manager, get_or_create_t_group, user_join}
use gim.Ws.RedisProxy.{group_sub_msg}
use gim.Ws.Proxy.{redis_proxy}
use gim.Ws.SubMsgs.{handle_sub_msg}
use gim.Ws.Client.Loop.{waits}
use gim.Ws.Broadcast.{listen_loop}
use gim.Ws.Broadcast.Listening.{IsListening, IsServed, listen_loop-IsServed, wanted, with_all}
use gim.Ws.Cluster.Publish.{Takes, group_message-reaches, with_group_msg}
use gim.Tests.Fixtures.{world, node, node-Registered}

-- The group of `ann` with two messages, of which the second one is not for her.
abbrev waiting : Node world
waiting =
    with_group_msg 0 (new_group_msg (2 ∷ []) "ann")
      (with_group_msg 0 (new_group_msg (1 ∷ []) "") node)

abbrev some_data : ResponseData
some_data = record { s = pos 1; a = none }

waiting-IsListening : (k : ℕ) → k ≤ 7 → IsListening 0 "ann" 0 k waiting
unfolding user_join get_or_create_t_group new_t_group_manager lookup insert
waiting-IsListening k h = record {
  alive = refl;
  opened = refl;
  nodup = (refl, tt);
  registered = node-Registered;
  entry = refl;
  is_online = refl;
  open_chan = refl;
  room = omega (arith, h);
}

waiting-Takes : Takes "team" 0 waiting
unfolding user_join get_or_create_t_group new_t_group_manager lookup insert
waiting-Takes = record { entry = refl; alive = refl; opened = refl; room = omega arith }

listen_loop-IsServed_example :
    IsServed 0 "ann" 0
      (waiting.t_group_m.heap 0).send.buffer
      waiting
      (listen_loop (suc (length (waiting.t_group_m.heap 0).send.buffer)) 0 waiting)
unfolding user_join get_or_create_t_group new_t_group_manager lookup insert
listen_loop-IsServed_example =
    listen_loop-IsServed 0 "ann" 0 waiting (waiting-IsListening 2 (omega arith))

group_message-reaches_example :
    (n1 : Node world) × (n2 : Node world) × (handle_sub_msg (redis_proxy world) (4 ∷ 4 ∷ []) waiting
      ≡ some n1)
    × (listen_loop 4 0 n1 ≡ some (waits, n2))
    × (client_at 0 n2
        ≡ with_all (client_at 0 waiting) (
            wanted "ann"
              (waiting.t_group_m.heap 0).users
              ((waiting.t_group_m.heap 0).send.buffer ++ new_group_msg (1 ∷ 2 ∷ []) "" ∷ [])))
unfolding user_join get_or_create_t_group new_t_group_manager lookup insert group_sub_msg
group_message-reaches_example =
    group_message-reaches "team" some_data "" node waiting (4 ∷ 4 ∷ []) (1 ∷ 2 ∷ []) 0 "ann" 0
      (λ e. ground (arith, e, eq_iff "team" "")) refl refl waiting-Takes
      (waiting-IsListening 3 (omega arith))
