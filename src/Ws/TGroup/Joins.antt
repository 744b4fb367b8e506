-- ===== src/Ws/TGroup/Joins.antt =====
-- service/ws/tgroup_manager.go: how `UserJoinTGroup` ends, and what it has done then.
use gim.Base.{
  ◌∙◌, ap, zero, ℕ, suc, ◌≤◌, ◌<◌, ◌≡◌, ◌≢◌, refl, inl, inr, String, Bool, true, false, ◌&&◌, ◌||◌,
  Option, none, some, arith, ◌==◌, nat_eq, string_eq, Eq-cases, Bool-cases,
}
use gim.Base.Dict.{lookup, lookup-insert, lookup-insert_self, lookup-nil}
use native.Mathlib.Nat.{le_trans}
use text.Mathlib.TextEquality.{eq_iff}
use gim.Ws.TGroup.{
  TGroupManager, normal, deleted, create, get_or_create_t_group, user_join, user_join_t_group,
}
use gim.Ws.TGroup.Invariant.{
  Inv, get_or_create_t_group-Inv, get_or_create_t_group-lookup, user_join-Inv,
}
use gim.Ws.TGroup.Members.{
  is_member, HasUsers, OthersHaveUsers, get_or_create-is_member, user_join-is_member,
}

-- No other goroutine touches the groups.
abbrev pub alone : ℕ → TGroupManager → TGroupManager
alone round g = g

-- A group of the map takes the user.
pub user_join_listed :
    (p : ℕ) (gid uid : String) (g : TGroupManager)
    → Inv g
    → lookup gid g.t_groups ≡ some p
    → (user_join p uid g).0 ≡ true
unfolding user_join
user_join_listed p gid uid g v e = ground (arith, v.entries gid p e)

-- A group takes a user exactly when it is not deleted, and otherwise nothing changes.
user_join_refused :
    (p : ℕ) (uid : String) (g : TGroupManager)
    → (user_join p uid g).0 ≡ false
    → ((g.heap p).state ≡ deleted) × ((user_join p uid g).1 ≡ g)
unfolding user_join
user_join_refused p uid g h = ground arith

accepted :
    (p : ℕ) (uid : String) (g : TGroupManager)
    → (user_join p uid g).0 ≡ true
    → (g.heap p).state ≡ normal
unfolding user_join
accepted p uid g h = ground arith

-- What other goroutines may do to the groups: what the calls of the manager keep.
pub record Interferes (others : ℕ → TGroupManager → TGroupManager) : Type 0 where
  pub keeps : (round : ℕ) (g : TGroupManager) → Inv g → Inv (others round g)
  pub grows : (round : ℕ) (g : TGroupManager) → g.next ≤ (others round g).next
  pub named :
      (round : ℕ) (g : TGroupManager) (p : ℕ)
      → p < g.next
      → ((others round g).heap p).gid ≡ (g.heap p).gid

-- The user joined the group object `p`, which was made under the id: it is the map's group.
joined_member :
    (p : ℕ) (gid uid : String) (g : TGroupManager)
    → Inv g
    → p < g.next
    → (g.heap p).gid ≡ gid
    → (user_join p uid g).0 ≡ true
    → is_member gid uid (user_join p uid g).1 ≡ true
joined_member p gid uid g v made name h =
    user_join-is_member p gid uid g gid uid v (rw name at (v.listed p made (accepted p uid g h)))
    ∙ ground (arith, eq_iff gid gid, eq_iff uid uid)

-- A round in which nobody interferes ends the loop.
quiet_round :
    (others : ℕ → TGroupManager → TGroupManager) (fuel cap : ℕ) (gid uid : String)
    (g : TGroupManager)
    → Inv g
    → ((h : TGroupManager) → others fuel h ≡ h)
    → user_join_t_group others (suc fuel) cap gid uid g
      ≡ some
          (user_join (get_or_create_t_group cap gid g).0 uid (get_or_create_t_group cap gid g).1).1
unfolding user_join_t_group
quiet_round others fuel cap gid uid g v quiet =
    let (p, found) = get_or_create_t_group cap gid g in
    rw (quiet found, user_join_t_group)
      (rw
        (
          user_join_listed p gid uid found (get_or_create_t_group-Inv cap gid g v)
              (get_or_create_t_group-lookup cap gid g),
          user_join_t_group,
        )
        refl)

-- What a return of the loop has done.
abbrev pub JoinDone : String → String → Option TGroupManager → Type 0
JoinDone gid uid none = Unit {0}
JoinDone gid uid (some g) = Inv g × (is_member gid uid g ≡ true)

module _ (others : ℕ → TGroupManager → TGroupManager) (safe : Interferes others) where
  -- Whenever the loop returns, the user is in the group.
  pub user_join_t_group-JoinDone :
      (fuel cap : ℕ) (gid uid : String) (g : TGroupManager)
      → Inv g
      → JoinDone gid uid (user_join_t_group others fuel cap gid uid g)
  unfolding user_join_t_group
  user_join_t_group-JoinDone zero cap gid uid g v = tt
  user_join_t_group-JoinDone (suc fuel) cap gid uid g v =
      let p : ℕ = (get_or_create_t_group cap gid g).0 in
      let found : TGroupManager = (get_or_create_t_group cap gid g).1 in
      let seen : TGroupManager = others fuel found in
      let fine = safe.keeps fuel found (get_or_create_t_group-Inv cap gid g v) in
      let old =
        (get_or_create_t_group-Inv cap gid g v).entries gid p
          (get_or_create_t_group-lookup cap gid g) in
      elim (Bool-cases (user_join p uid seen).0) [
        | inl e ↦
            rw (e, user_join_t_group)
              (
                user_join-Inv p uid seen fine,
                joined_member p gid uid seen fine (le_trans old.0 (safe.grows fuel found))
                    (safe.named fuel found p old.0 ∙ old.1) e,
              )
        | inr e ↦
            rw (e, user_join_t_group)
              (user_join_t_group-JoinDone fuel cap gid uid _ (user_join-Inv p uid seen fine))
      ]

  -- One round in which nobody interferes is enough, however the other rounds went.
  pub user_join_t_group_ends :
      (fuel round cap : ℕ) (gid uid : String) (g : TGroupManager)
      → Inv g
      → round < fuel
      → ((h : TGroupManager) → others round h ≡ h)
      → user_join_t_group others fuel cap gid uid g ≢ none
  unfolding user_join_t_group
  user_join_t_group_ends zero round cap gid uid g v h quiet = elim h [ ]
  user_join_t_group_ends (suc fuel) round cap gid uid g v h quiet =
      let p : ℕ = (get_or_create_t_group cap gid g).0 in
      let found : TGroupManager = (get_or_create_t_group cap gid g).1 in
      let seen : TGroupManager = others fuel found in
      let fine = safe.keeps fuel found (get_or_create_t_group-Inv cap gid g v) in
      elim (Eq-cases round fuel) [
        | inl (_, same) ↦ λ e. cc (quiet_round others fuel cap gid uid g v (rw same at quiet), e)
        | inr (_, differs) ↦ elim (Bool-cases (user_join p uid seen).0) [
          | inl e ↦ rw (e, user_join_t_group) (λ q. cc)
          | inr e ↦
              rw (e, user_join_t_group)
                (user_join_t_group_ends fuel round cap gid uid _ (user_join-Inv p uid seen fine)
                  (omega arith) quiet)
        ]
      ]

pub user_join-HasUsers :
    (p : ℕ) (uid : String) (g : TGroupManager)
    → OthersHaveUsers p g
    → (user_join p uid g).0 ≡ true
    → HasUsers (user_join p uid g).1
unfolding user_join
user_join-HasUsers p uid g rest done gid q e empty = ground (
  arith,
  rest gid q,
  accepted p uid g done,
  lookup-insert_self uid true (g.heap p).users,
  lookup-nil {V = Bool} uid,
)

pub get_or_create-OthersHaveUsers :
    (cap : ℕ) (gid : String) (g : TGroupManager)
    → HasUsers g
    → Inv g
    → OthersHaveUsers (get_or_create_t_group cap gid g).0 (get_or_create_t_group cap gid g).1
unfolding get_or_create_t_group create
get_or_create-OthersHaveUsers cap gid g h v j q e away =
    ground (arith, h j q, lookup-insert gid j g.next g.t_groups)

-- Alone, one round is enough: the loop returns with exactly this one membership more, the
-- groups stay sound, and no group is left without users.
pub user_join_t_group-alone :
    (fuel cap : ℕ) (gid uid : String) (g : TGroupManager)
    → Inv g
    → HasUsers g
    → (g' : TGroupManager) × (user_join_t_group alone (suc fuel) cap gid uid g ≡ some g')
      × Inv g'
      × HasUsers g'
      × ((j u : String) → is_member j u g' ≡ (gid == j && uid == u) || is_member j u g)
user_join_t_group-alone fuel cap gid uid g v h =
    let p : ℕ = (get_or_create_t_group cap gid g).0 in
    let found : TGroupManager = (get_or_create_t_group cap gid g).1 in
    let fine = get_or_create_t_group-Inv cap gid g v in
    let listed = get_or_create_t_group-lookup cap gid g in
    (
      (user_join p uid found).1,
      quiet_round alone fuel cap gid uid g v (λ _. refl),
      user_join-Inv p uid found fine,
      user_join-HasUsers p uid found (get_or_create-OthersHaveUsers cap gid g h v)
          (user_join_listed p gid uid found fine listed),
      λ j u.
          user_join-is_member p gid uid found j u fine listed
          ∙ ap (λ (b : Bool). (gid == j && uid == u) || b)
              (get_or_create-is_member cap gid g j u v),
    )
