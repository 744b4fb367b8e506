-- ===== src/Ws/TGroup/Members.antt =====
-- The groups seen from outside: which user is in which group. The pointers are forgotten.
use gim.Base.{
  ◌∙◌, ℕ, ◌≡◌, ◌≢◌, refl, ap, inl, inr, String, Bool, true, false, ◌&&◌, ◌||◌, not, Option, none,
  some, [], ◌∷◌, arith, ◌==◌, nat_eq, string_eq, Option-cases,
}
use gim.Base.Dict.{Dict, lookup, has, lookup-nil, lookup-insert, lookup-erase}
use text.Mathlib.TextEquality.{eq_iff}
use gim.Ws.TGroup.{
  TGroup, TGroupManager, put, new_t_group, new_t_group_manager, create, get_or_create_t_group,
  remove_t_group, closed_group, close_send, delete_t_group, user_join, user_leave, delete_if_empty,
  without, user_out_t_group,
}
use gim.Ws.TGroup.Invariant.{Inv, user_leave-Inv, without-Inv}
use gim.Base.Chan

users_of : TGroupManager → Option ℕ → Dict String Bool
users_of g none = []
users_of g (some p) = (g.heap p).users

-- `uid` is in the group `gid`.
pub is_member : String → String → TGroupManager → Bool
unfolding users_of
is_member gid uid g = has uid (users_of g (lookup gid g.t_groups))

put-users_of :
    (p : ℕ) (t : TGroup) (g : TGroupManager) (o : Option ℕ)
    → t.users ≡ (g.heap p).users
    → users_of (put p t g) o ≡ users_of g o
unfolding users_of
put-users_of p t g none e = refl
put-users_of p t g (some q) e = ground (arith, e)

-- A change of one group that keeps its users.
pub put-is_member :
    (p : ℕ) (t : TGroup) (g : TGroupManager) (gid uid : String)
    → t.users ≡ (g.heap p).users
    → is_member gid uid (put p t g) ≡ is_member gid uid g
unfolding is_member
put-is_member p t g gid uid e = ap (has uid) (put-users_of p t g (lookup gid g.t_groups) e)

-- No group is kept without users.
abbrev pub HasUsers : TGroupManager → Type 0
HasUsers g = (gid : String) (p : ℕ) → lookup gid g.t_groups ≡ some p → (g.heap p).users ≢ []

pub is_member-new : (gid uid : String) → is_member gid uid new_t_group_manager ≡ false
unfolding is_member new_t_group_manager
is_member-new gid uid = ground (arith, lookup-nil {V = ℕ} gid, lookup-nil {V = Bool} uid)

pub get_or_create-is_member :
    (cap : ℕ) (gid : String) (g : TGroupManager) (j u : String)
    → Inv g
    → is_member j u (get_or_create_t_group cap gid g).1 ≡ is_member j u g
unfolding is_member get_or_create_t_group create new_t_group
get_or_create-is_member cap gid g j u v = ground (
  arith,
  lookup-insert gid j g.next g.t_groups,
  eq_iff gid j,
  lookup-nil {V = Bool} u,
  v.entries j g.next,
)

-- Joining the group that the map has for the id succeeds, and adds one member.
pub user_join-is_member :
    (p : ℕ) (gid uid : String) (g : TGroupManager) (j u : String)
    → Inv g
    → lookup gid g.t_groups ≡ some p
    → is_member j u (user_join p uid g).1 ≡ (gid == j && uid == u) || is_member j u g
unfolding is_member user_join
user_join-is_member p gid uid g j u v e = ground (
  arith,
  v.entries gid p e,
  v.entries j p,
  lookup-insert uid u true (g.heap p).users,
  eq_iff gid j,
  eq_iff uid u,
)

leave_kept :
    (p : ℕ) (gid uid : String) (g : TGroupManager) (j u : String)
    → Inv g
    → lookup gid g.t_groups ≡ some p
    → is_member j u (put p (without uid (g.heap p)) g)
      ≡ is_member j u g && not (gid == j && uid == u)
unfolding is_member
leave_kept p gid uid g j u v e = ground (
  arith,
  v.entries gid p e,
  v.entries j p,
  lookup-erase uid u (g.heap p).users,
  eq_iff gid j,
  eq_iff uid u,
)

-- Deleting a group that has no users takes no member away.
delete_empty-is_member :
    (p : ℕ) (gid : String) (g : TGroupManager) (j u : String)
    → Inv g
    → lookup gid g.t_groups ≡ some p
    → (g.heap p).users ≡ []
    → is_member j u (delete_t_group p g) ≡ is_member j u g
unfolding is_member delete_t_group remove_t_group close_send closed_group Chan.close
delete_empty-is_member p gid g j u v e none_left = ground (
  arith,
  v.entries gid p e,
  v.entries j p,
  lookup-erase gid j g.t_groups,
  eq_iff gid j,
  lookup-nil {V = Bool} u,
)

delete_if_empty-is_member :
    (m : Dict String Bool) (p : ℕ) (gid : String) (g : TGroupManager) (j u : String)
    → Inv g
    → lookup gid g.t_groups ≡ some p
    → (g.heap p).users ≡ m
    → is_member j u (delete_if_empty m p g) ≡ is_member j u g
unfolding delete_if_empty
delete_if_empty-is_member [] p gid g j u v e m = delete_empty-is_member p gid g j u v e m
delete_if_empty-is_member (_ ∷ _) p gid g j u v e m = refl

user_leave-is_member :
    (p : ℕ) (gid uid : String) (g : TGroupManager) (j u : String)
    → Inv g
    → lookup gid g.t_groups ≡ some p
    → is_member j u (user_leave p uid g) ≡ is_member j u g && not (gid == j && uid == u)
unfolding user_leave
user_leave-is_member p gid uid g j u v e =
    delete_if_empty-is_member _ p gid _ j u (without-Inv p uid g v) e (ground arith)
    ∙ leave_kept p gid uid g j u v e

absent-is_member :
    (gid : String) (g : TGroupManager) (j u : String)
    → lookup gid g.t_groups ≡ none
    → (gid == j) ≡ true
    → is_member j u g ≡ false
unfolding is_member
absent-is_member gid g j u e same = ground (arith, eq_iff gid j, lookup-nil {V = Bool} u)

-- Leaving takes that one membership away and no other, whether or not the group is there.
pub user_out_t_group-is_member :
    (gid uid : String) (g : TGroupManager) (j u : String)
    → Inv g
    → is_member j u (user_out_t_group gid uid g).1 ≡ is_member j u g && not (gid == j && uid == u)
unfolding user_out_t_group
user_out_t_group-is_member gid uid g j u v = elim (Option-cases (lookup gid g.t_groups)) [
  | inl e ↦ rw (e, user_out_t_group) (ground (arith, absent-is_member gid g j u e))
  | inr (p, e) ↦ rw (e, user_out_t_group) (user_leave-is_member p gid uid g j u v e)
]

-- Between a look-up and a join a group may be empty: all others have users.
abbrev pub OthersHaveUsers : ℕ → TGroupManager → Type 0
OthersHaveUsers p g =
    (gid : String) (q : ℕ) → lookup gid g.t_groups ≡ some q → q ≢ p → (g.heap q).users ≢ []

delete_if_empty-HasUsers :
    (m : Dict String Bool) (p : ℕ) (g : TGroupManager)
    → Inv g
    → (g.heap p).users ≡ m
    → OthersHaveUsers p g
    → HasUsers (delete_if_empty m p g)
unfolding delete_if_empty delete_t_group remove_t_group close_send closed_group Chan.close
delete_if_empty-HasUsers [] p g v m rest = λ gid q h. ground (
  arith,
  v.entries gid q,
  rest gid q,
  lookup-erase (g.heap p).gid gid g.t_groups,
  eq_iff (g.heap p).gid gid,
)
delete_if_empty-HasUsers (_ ∷ _) p g v m rest = λ gid q h. ground (arith, rest gid q h)

-- From sound groups none of which is empty, leaving a group keeps it so: a group that its last
-- user leaves is removed.
pub user_out_t_group-HasUsers :
    (gid uid : String) (g : TGroupManager)
    → Inv g
    → HasUsers g
    → HasUsers (user_out_t_group gid uid g).1
unfolding user_out_t_group user_leave
user_out_t_group-HasUsers gid uid g v h = elim (Option-cases (lookup gid g.t_groups)) [
  | inl e ↦ rw (e, user_out_t_group) h
  | inr (p, e) ↦
      rw (e, user_out_t_group)
        (delete_if_empty-HasUsers _ p _ (without-Inv p uid g v) (ground arith)
          (λ j q l away. ground (arith, h j q l)))
]

-- Leaving a group keeps the groups sound: see `Inv`.
pub user_out_t_group-Inv :
    (gid uid : String) (g : TGroupManager) → Inv g → Inv (user_out_t_group gid uid g).1
unfolding user_out_t_group
user_out_t_group-Inv gid uid g v = elim (Option-cases (lookup gid g.t_groups)) [
  | inl e ↦ rw (e, user_out_t_group) v
  | inr (p, e) ↦ rw (e, user_out_t_group) (user_leave-Inv p uid g v)
]
