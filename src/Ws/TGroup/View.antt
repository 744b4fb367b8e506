-- ===== src/Ws/TGroup/View.antt =====
-- service/ws/tgroup_manager.go: the groups as a set of memberships. Pointers, the order of maps,
-- deleted groups and what waits in a channel are forgotten.
use gim.Base.{
  ℕ, ◌≡◌, refl, ap, sym, ◌∙◌, String, Bool, true, false, ◌&&◌, Option, none, some, List, [], ◌∷◌,
  if◌then◌else◌, arith, ◌==◌, string_eq,
}
use mathlib.Core.Quot
use mathlib.Core.Quot.{Quot, Quot-set}
use gim.Ws.TGroup.{TGroupManager, user_join_t_group, user_out_t_group}
use gim.Ws.TGroup.Invariant.{Inv}
use gim.Ws.TGroup.Joins.{alone, user_join_t_group-alone}
use gim.Ws.TGroup.Members.{
  is_member, HasUsers, user_out_t_group-is_member, user_out_t_group-Inv, user_out_t_group-HasUsers,
}

-- Sound groups, none of which is empty.
abbrev pub Groups : Type 0
Groups = (g : TGroupManager) × Inv g × HasUsers g

abbrev pub SameMembers : Groups → Groups → Type 0
SameMembers a b = (gid uid : String) → is_member gid uid a.0 ≡ is_member gid uid b.0

abbrev pub Memberships : Type 0
Memberships = Quot SameMembers

abbrev pub view : Groups → Memberships
view = Quot.mk

pub is_in : String → String → Memberships → Bool
is_in gid uid = Quot.lift (hlevel) (λ a. is_member gid uid a.0) (λ a b same. same gid uid)

-- A call of the manager.
pub data Call : Type 0 where
  joins leaves : String → String → Call

-- What it is about, and whether the user is in the group afterwards.
abbrev about : Call → String → String → Bool
about (joins gid uid) j u = gid == j && uid == u
about (leaves gid uid) j u = gid == j && uid == u

abbrev is_join : Call → Bool
is_join (joins gid uid) = true
is_join (leaves gid uid) = false

module _ (cap : ℕ) where
  -- The code of the call, when nobody else is at the groups.
  unfoldable pub run_call : Call → TGroupManager → Option TGroupManager
  run_call (joins gid uid) g = user_join_t_group alone 1 cap gid uid g
  run_call (leaves gid uid) g = some (user_out_t_group gid uid g).1

  unfoldable pub run_calls : List Call → Option TGroupManager → Option TGroupManager
  run_calls calls none = none
  run_calls [] (some g) = some g
  run_calls (c ∷ calls) (some g) = run_calls calls (run_call c g)

  -- What the call does to sound groups.
  abbrev Ran : Call → Groups → Type 0
  Ran c a =
      (b : Groups) × (run_call c a.0 ≡ some b.0)
      × ((j u : String)
          → is_member j u b.0 ≡ (if about c j u then is_join c else is_member j u a.0))

  ran : (c : Call) (a : Groups) → Ran c a
  unfolding run_call
  ran (joins gid uid) (g, v, h) =
      let (g', done, w, used, members) = user_join_t_group-alone 0 cap gid uid g v h in
      ((g', w, used), done, λ j u. ground (arith, members j u))
  ran (leaves gid uid) (g, v, h) = (
    (
      (user_out_t_group gid uid g).1,
      user_out_t_group-Inv gid uid g v,
      user_out_t_group-HasUsers gid uid g v h,
    ),
    refl,
    λ j u. ground (arith, user_out_t_group-is_member gid uid g j u v),
  )

  ran-SameMembers :
      (c : Call) (a b : Groups) → SameMembers a b → SameMembers (ran c a).0 (ran c b).0
  ran-SameMembers c a b same j u =
      (ran c a).2 j u
      ∙ ap (λ (x : Bool). if about c j u then is_join c else x) (same j u)
      ∙ sym ((ran c b).2 j u)

  -- The call on memberships alone.
  pub call : Call → Memberships → Memberships
  call c =
      Quot.lift Quot-set (λ a. view (ran c a).0)
        (λ a b same. Quot.sound (ran-SameMembers c a b same))

  is_in-call :
      (c : Call) (j u : String) (m : Memberships)
      → is_in j u (call c m) ≡ (if about c j u then is_join c else is_in j u m)
  unfolding is_in call
  is_in-call c j u = Quot.ind (λ m. hlevel) (λ a. (ran c a).2 j u)

-- Memberships are the same when everybody is in the same groups.
pub ext : (m k : Memberships) → ((j u : String) → is_in j u m ≡ is_in j u k) → m ≡ k
unfolding is_in
ext = Quot.ind (λ m. hlevel Quot-set) (λ a. Quot.ind (λ k. hlevel Quot-set) (λ b. Quot.sound))

-- What the last call about a user and a group was, if there was one: `true` is a join.
unfoldable pub last_call : List Call → String → String → Option Bool
last_call [] j u = none
last_call (c ∷ calls) j u = elim (last_call calls j u) [
  | some b ↦ some b
  | none ↦ if about c j u then some (is_join c) else none
]

abbrev pub or_before : Option Bool → Bool → Bool
or_before none before = before
or_before (some b) before = b

module _ (cap : ℕ) where
  unfoldable pub calls_on : List Call → Memberships → Memberships
  calls_on [] m = m
  calls_on (c ∷ calls) m = calls_on calls (call cap c m)

  is_in-calls_on :
      (calls : List Call) (j u : String) (m : Memberships)
      → is_in j u (calls_on calls m) ≡ or_before (last_call calls j u) (is_in j u m)
  unfolding calls_on last_call
  is_in-calls_on [] j u m = refl
  is_in-calls_on (c ∷ calls) j u m =
      ground (arith, is_in-calls_on calls j u (call cap c m), is_in-call cap c j u m)

  run_calls-calls_on :
      (calls : List Call) (a : Groups)
      → (b : Groups) × (run_calls cap calls (some a.0) ≡ some b.0)
        × (view b ≡ calls_on calls (view a))
  unfolding run_calls calls_on call
  run_calls-calls_on [] a = (a, refl, refl)
  run_calls-calls_on (c ∷ calls) a =
      let (next, done, members) = ran cap c a in
      let (b, rest, same) = run_calls-calls_on calls next in (b, rw (done, run_calls) rest, same)

  -- Two sequences of UserJoinTGroup and UserOutTGroup, of a caller that nobody disturbs, from sound
  -- groups none of which is empty and that have the same memberships, and with the same last call
  -- about each user and group: both return, leave such groups again, and the memberships are the
  -- same, whatever the order of the calls; a user is in a group afterwards if the last call about
  -- them was a join, or there was none and the user was in it before.
  pub run_calls-view :
      (calls calls' : List Call) (a a' : Groups)
      → view a ≡ view a'
      → ((gid uid : String) → last_call calls gid uid ≡ last_call calls' gid uid)
      → (b b' : Groups) × (run_calls cap calls (some a.0) ≡ some b.0)
        × (run_calls cap calls' (some a'.0) ≡ some b'.0)
        × (view b ≡ view b')
        × ((gid uid : String)
            → is_member gid uid b.0 ≡ or_before (last_call calls gid uid) (is_member gid uid a.0))
  unfolding is_in
  run_calls-view calls calls' a a' same last =
      let (b, done, x) = run_calls-calls_on calls a in
      let (b', done', y) = run_calls-calls_on calls' a' in
      (
        b,
        b',
        done,
        done',
        ext (view b) (view b') (λ j u.
            ap (is_in j u) x
            ∙ is_in-calls_on calls j u (view a)
            ∙ ap (λ o. or_before o (is_in j u (view a))) (last j u)
            ∙ ap (λ m. or_before (last_call calls' j u) (is_in j u m)) same
            ∙ sym (is_in-calls_on calls' j u (view a'))
            ∙ sym (ap (is_in j u) y)),
        λ j u. ap (is_in j u) x ∙ is_in-calls_on calls j u (view a),
      )
