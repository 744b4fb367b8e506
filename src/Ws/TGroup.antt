-- ===== src/Ws/TGroup.antt =====
-- service/ws/tgroup.go and service/ws/tgroup_manager.go: temporary groups and their manager.
-- A `*TGroup` is a number, and `heap` holds the objects: a group that was removed from the map
-- lives on for whoever still has its pointer. Each function is what runs under its lock.
pub mod Invariant
pub mod Members
pub mod Joins
pub mod View
use gim.Base.{
  [], ◌≢◌, ℕ, zero, suc, String, Bool, true, false, Option, none, some, [], ◌==◌, nat_eq, string_eq,
  if◌then◌else◌, update,
}
use gim.Base.Dict.{Dict, lookup, insert, erase}
use gim.Base.Chan.{Chan, Sent, sent, full, panicked, make, send, close}
use gim.Types.Message.{GroupMsg}

-- `State int8`: 1 is `normal`, 2 is `deleted`.
pub data GroupState : Type 0 where
  normal deleted : GroupState

pub record TGroup : Type 0 where
  pub state : GroupState
  pub users : Dict String Bool
  pub gid : String
  pub send : Chan GroupMsg

-- `TGroupM`, and the objects that it has made.
pub record TGroupManager : Type 0 where
  pub t_groups : Dict String ℕ
  pub heap : ℕ → TGroup
  pub next : ℕ

unfoldable pub new_t_group : ℕ → String → TGroup
new_t_group cap gid = record { state = normal; users = []; gid = gid; send = make cap }

-- No group is made yet: what `heap` holds is not reached.
unfoldable pub new_t_group_manager : TGroupManager
unfolding new_t_group
new_t_group_manager = record { t_groups = []; heap = λ _. new_t_group 0 ""; next = 0 }

abbrev pub put : ℕ → TGroup → TGroupManager → TGroupManager
put p t g = record g { heap = update g.heap p t }

unfoldable pub get_t_group : String → TGroupManager → Option ℕ
get_t_group gid g = lookup gid g.t_groups

create : ℕ → String → TGroupManager → ℕ × TGroupManager
unfolding new_t_group
create cap gid g = (
  g.next,
  record {
    t_groups = insert gid g.next g.t_groups;
    heap = update g.heap g.next (new_t_group cap gid);
    next = suc g.next;
  },
)

unfoldable pub get_or_create_t_group : ℕ → String → TGroupManager → ℕ × TGroupManager
unfolding create get_t_group
get_or_create_t_group cap gid g = elim (get_t_group gid g) [
  | some p ↦ (p, g)
  | none ↦ create cap gid g
]

-- `TGroupManager.DeleteTGroup`: only if the map still leads to this very group.
unfoldable pub remove_t_group : ℕ → TGroupManager → TGroupManager
remove_t_group p g = elim (lookup (g.heap p).gid g.t_groups) [
  | none ↦ g
  | some q ↦ if q == p then record g { t_groups = erase (g.heap p).gid g.t_groups } else g
]

-- The state is set before `close`; the panic of a second close is recovered.
close_channel : TGroup → Option (Chan GroupMsg) → TGroup
close_channel t none = record t { state = deleted }
close_channel t (some ch) = record t { state = deleted; send = ch }

closed_group : GroupState → TGroup → TGroup
unfolding close_channel
closed_group deleted t = t
closed_group normal t = close_channel t (close t.send)

unfoldable pub close_send : ℕ → TGroupManager → TGroupManager
unfolding closed_group
close_send p g = put p (closed_group (g.heap p).state (g.heap p)) g

-- `TGroup.DeleteTGroup`
unfoldable pub delete_t_group : ℕ → TGroupManager → TGroupManager
unfolding remove_t_group close_send
delete_t_group p g = close_send p (remove_t_group p g)

joined : GroupState → ℕ → String → TGroupManager → Bool × TGroupManager
joined deleted p uid g = (false, g)
joined normal p uid g =
    (true, put p (record (g.heap p) { users = insert uid true (g.heap p).users }) g)

unfoldable pub user_join : ℕ → String → TGroupManager → Bool × TGroupManager
unfolding joined
user_join p uid g = joined (g.heap p).state p uid g

abbrev pub without : String → TGroup → TGroup
without uid t = record t { users = erase uid t.users }

delete_if_empty : Dict String Bool → ℕ → TGroupManager → TGroupManager
unfolding delete_t_group
delete_if_empty [] p g = delete_t_group p g
delete_if_empty _ p g = g

unfoldable pub user_leave : ℕ → String → TGroupManager → TGroupManager
unfolding delete_if_empty
user_leave p uid g =
    delete_if_empty (erase uid (g.heap p).users) p (put p (without uid (g.heap p)) g)

-- The recursion of `UserJoinTGroup`, on fuel. `others` is what other goroutines do to the groups
-- between the look-up of the group and the join, in each round; `none` is fuel that ran out.
unfoldable pub user_join_t_group :
    (ℕ → TGroupManager → TGroupManager)
    → ℕ
    → ℕ
    → String
    → String
    → TGroupManager
    → Option TGroupManager
unfolding get_or_create_t_group user_join
user_join_t_group others zero cap gid uid g = none
user_join_t_group others (suc fuel) cap gid uid g =
    let (p, found) = get_or_create_t_group cap gid g in
    let (done, after) = user_join p uid (others fuel found) in
    let rest = user_join_t_group others fuel cap gid uid after in if done then some after else rest

unfoldable pub user_out_t_group : String → String → TGroupManager → Bool × TGroupManager
unfolding get_t_group user_leave
user_out_t_group gid uid g = elim (get_t_group gid g) [
  | none ↦ (false, g)
  | some p ↦ (true, user_leave p uid g)
]

-- `full` is a send that waits for the listener of the group.
pub data Sending : Type 0 where
  returned : TGroupManager → Sending
  blocked : Sending

unfoldable pub sending : ℕ → TGroupManager → Sent GroupMsg → Sending
sending p g (sent ch) = returned (put p (record (g.heap p) { send = ch }) g)
sending p g full = blocked
sending p g panicked = returned g

abbrev pub send_in : GroupState → ℕ → GroupMsg → TGroupManager → Sending
send_in deleted p msg g = returned g
send_in normal p msg g = sending p g (send (g.heap p).send msg)

unfoldable pub send_chan : ℕ → GroupMsg → TGroupManager → Sending
unfolding sending
send_chan p msg g = send_in (g.heap p).state p msg g

unfoldable pub send_message_to_t_group : String → GroupMsg → TGroupManager → Sending
unfolding get_t_group send_chan
send_message_to_t_group gid msg g = elim (get_t_group gid g) [
  | none ↦ returned g
  | some p ↦ send_chan p msg g
]
