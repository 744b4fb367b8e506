-- ===== src/Tests/Races.antt =====
-- `cat` goes away while she joins a group, and says something before.
use gim.Base.{string_eq, ◌≡◌, refl, none, some, [], ◌∷◌}
use gim.Base.Dict.{lookup, insert}
use gim.Ws.Node.{Node, new_client_manager}
use gim.Ws.Cache.{get_set_user_online_info}
use gim.Ws.Client.{in_t_group, out_t_group, forget_group, on_close}
use gim.Ws.Safety.LateNote.{group_left, IsLeft, forget_group-IsLeft}
use gim.Ws.Handler.{handler_up, on_message}
use gim.Ws.Handler.Answers.{OnMessageDone, on_message-OnMessageDone}
use gim.Ws.Safety.LateJoin.{IsStuck, in_t_group-IsStuck}
use gim.Tests.Fixtures.{world}
use gim.Tests.Events.{with_cat, with_cat-NodeInv, echo}

cat_entered : lookup "cat" with_cat.client_m.clients ≡ some 0
unfolding handler_up lookup new_client_manager get_set_user_online_info insert
cat_entered = refl

in_t_group-IsStuck_example :
    (n' : Node world) × (in_t_group 0 "team" (on_close none 0 with_cat).1 ≡ some n')
    × IsStuck 0 "cat" "team" n'
in_t_group-IsStuck_example = in_t_group-IsStuck "cat" "team" 0 with_cat with_cat-NodeInv cat_entered

on_message-OnMessageDone_example :
    OnMessageDone echo 8 (1 ∷ []) with_cat (on_message echo 8 (1 ∷ []) with_cat)
on_message-OnMessageDone_example = on_message-OnMessageDone echo 8 (1 ∷ []) with_cat

forget_group-IsLeft_example :
    (out_t_group 0 "team" with_cat ≡ forget_group 0 "team" (group_left 0 "team" with_cat))
    × ((n' : Node world) × (in_t_group 0 "team" (group_left 0 "team" with_cat) ≡ some n')
        × IsLeft "cat" "team" (on_close none 0 (forget_group 0 "team" n')).1)
forget_group-IsLeft_example =
    forget_group-IsLeft "cat" "team" 0 with_cat with_cat-NodeInv cat_entered
