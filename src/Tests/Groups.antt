-- ===== src/Tests/Groups.antt =====
-- Joins and leaves of a group at concrete inputs.
use gim.Base.{ℕ, zero, suc, ◌<◌, ◌≤◌, ◌≡◌, ◌≢◌, refl, true, none, arith, nat_eq, string_eq}
use gim.Base.Dict.{lookup, lookup-nil}
use gim.Ws.TGroup.{
  TGroupManager, new_t_group_manager, get_or_create_t_group, user_join, user_join_t_group,
}
use gim.Ws.TGroup.Invariant.{Inv, new_t_group_manager-Inv, get_or_create_t_group-Inv, user_join-Inv}
use gim.Ws.TGroup.Members.{HasUsers}
use gim.Ws.TGroup.Joins.{
  Interferes, JoinDone, user_join_t_group-JoinDone, user_join_t_group_ends, user_join-HasUsers,
  get_or_create-OthersHaveUsers,
}

abbrev pub made : TGroupManager
made = (get_or_create_t_group 4 "team" new_t_group_manager).1

-- The group `team`, with the user `ann`.
abbrev pub team : TGroupManager
team = (user_join 0 "ann" made).1

pub made-Inv : Inv made
made-Inv = get_or_create_t_group-Inv 4 "team" new_t_group_manager new_t_group_manager-Inv

pub team-Inv : Inv team
team-Inv = user_join-Inv 0 "ann" made made-Inv

new_t_group_manager-HasUsers : HasUsers new_t_group_manager
unfolding new_t_group_manager
new_t_group_manager-HasUsers gid q e empty = ground (arith, lookup-nil {V = ℕ} gid)

ann_joins : (user_join 0 "ann" made).0 ≡ true
unfolding new_t_group_manager get_or_create_t_group user_join lookup
ann_joins = refl

pub team-HasUsers : HasUsers team
unfolding get_or_create_t_group new_t_group_manager lookup
team-HasUsers =
    user_join-HasUsers 0 "ann" made
      (get_or_create-OthersHaveUsers 4 "team" new_t_group_manager new_t_group_manager-HasUsers
        new_t_group_manager-Inv)
      ann_joins

-- Whoever interferes makes another group, but in the last round.
abbrev makes_group : ℕ → TGroupManager → TGroupManager
makes_group zero g = g
makes_group (suc n) g = (get_or_create_t_group 4 "other" g).1

makes_group-grows : (round : ℕ) (g : TGroupManager) → g.next ≤ (makes_group round g).next
unfolding get_or_create_t_group
makes_group-grows zero g = omega arith
makes_group-grows (suc n) g = ground arith

makes_group-named :
    (round : ℕ) (g : TGroupManager) (p : ℕ)
    → p < g.next
    → ((makes_group round g).heap p).gid ≡ (g.heap p).gid
unfolding get_or_create_t_group
makes_group-named zero g p h = refl
makes_group-named (suc n) g p h = ground arith

makes_group-keeps : (round : ℕ) (g : TGroupManager) → Inv g → Inv (makes_group round g)
makes_group-keeps zero g v = v
makes_group-keeps (suc n) g v = get_or_create_t_group-Inv 4 "other" g v

makes_group-Interferes : Interferes makes_group
makes_group-Interferes = record {
  keeps = makes_group-keeps;
  grows = makes_group-grows;
  named = makes_group-named;
}

user_join_t_group-JoinDone_example :
    JoinDone "team" "bob" (user_join_t_group makes_group 2 4 "team" "bob" team)
user_join_t_group-JoinDone_example =
    user_join_t_group-JoinDone makes_group makes_group-Interferes 2 4 "team" "bob" team team-Inv

user_join_t_group_ends_example : user_join_t_group makes_group 2 4 "team" "bob" team ≢ none
user_join_t_group_ends_example =
    user_join_t_group_ends makes_group makes_group-Interferes 2 0 4 "team" "bob" team team-Inv
      (omega arith) (λ h. refl)
