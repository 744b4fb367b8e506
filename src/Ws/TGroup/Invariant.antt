-- ===== src/Ws/TGroup/Invariant.antt =====
-- service/ws/tgroup_manager.go: what holds of the groups between two calls.
use gim.Base.{
  [], ℕ, ◌<◌, ◌≡◌, refl, ◌⊎◌, inl, inr, String, Bool, true, false, none, some, arith, nat_eq,
  string_eq, Option-cases,
}
use gim.Base.Dict.{
  Dict, lookup, NodupKeys, lookup-nil, lookup-insert, lookup-erase, insert-NodupKeys,
  erase-NodupKeys,
}
use gim.Base.Chan.{send, close, Sent-cases, send_sent}
use gim.Types.Message.{GroupMsg}
use text.Mathlib.TextEquality.{eq_iff}
use gim.Ws.TGroup.{
  TGroup, TGroupManager, GroupState, normal, deleted, put, new_t_group, new_t_group_manager,
  get_t_group, create, get_or_create_t_group, remove_t_group, closed_group, close_send,
  delete_t_group, user_join, user_leave, delete_if_empty, without, joined, sending, send_in,
  Sending, returned, blocked, send_chan,
}

-- A group of the map was made, has the map's key for its id, and is not deleted.
abbrev pub IsEntry : TGroupManager → String → ℕ → Type 0
IsEntry g gid p = (p < g.next) × ((g.heap p).gid ≡ gid) × ((g.heap p).state ≡ normal)

-- The channel of a group is closed exactly when the group is deleted.
abbrev pub IsSound : TGroup → Type 0
IsSound t =
    ((t.state ≡ normal) × (t.send.closed ≡ false) ⊎ (t.state ≡ deleted) × (t.send.closed ≡ true))
    × NodupKeys t.users

pub record Inv (g : TGroupManager) : Type 0 where
  pub nodup : NodupKeys g.t_groups
  pub entries : (gid : String) (p : ℕ) → lookup gid g.t_groups ≡ some p → IsEntry g gid p
  pub sound : (p : ℕ) → IsSound (g.heap p)
  pub listed :
      (p : ℕ) → p < g.next → (g.heap p).state ≡ normal → lookup (g.heap p).gid g.t_groups ≡ some p

pub new_t_group_manager-Inv : Inv new_t_group_manager
unfolding new_t_group_manager new_t_group
new_t_group_manager-Inv = record {
  nodup = tt;
  entries = λ gid p h. ground (arith, lookup-nil {V = ℕ} gid);
  sound = λ p. (inl (refl, refl), tt);
  listed = λ p h. elim h [ ];
}

create-Inv :
    (cap : ℕ) (gid : String) (g : TGroupManager)
    → Inv g
    → lookup gid g.t_groups ≡ none
    → Inv (create cap gid g).1
unfolding create new_t_group
create-Inv cap gid g v fresh = record {
  nodup = insert-NodupKeys gid g.next g.t_groups v.nodup;
  entries =
      λ j p h. ground (arith, lookup-insert gid j g.next g.t_groups, v.entries j p, eq_iff gid j);
  sound = λ p. ground (arith, v.sound p);
  listed = λ p h. ground (
    arith,
    v.listed p,
    lookup-insert gid (g.heap p).gid g.next g.t_groups,
    lookup-insert gid gid g.next g.t_groups,
    eq_iff gid (g.heap p).gid,
    eq_iff gid gid,
  );
}

pub get_or_create_t_group-Inv :
    (cap : ℕ) (gid : String) (g : TGroupManager) → Inv g → Inv (get_or_create_t_group cap gid g).1
unfolding get_or_create_t_group get_t_group
get_or_create_t_group-Inv cap gid g v = elim (Option-cases (get_t_group gid g)) [
  | inl e ↦ rw (e, get_or_create_t_group) (create-Inv cap gid g v e)
  | inr (p, e) ↦ rw (e, get_or_create_t_group) v
]

-- The group that is returned is the one that the map has for the id.
pub get_or_create_t_group-lookup :
    (cap : ℕ) (gid : String) (g : TGroupManager)
    → let (p, g') = get_or_create_t_group cap gid g in lookup gid g'.t_groups ≡ some p
unfolding get_or_create_t_group create
get_or_create_t_group-lookup cap gid g =
    ground (arith, lookup-insert gid gid g.next g.t_groups, eq_iff gid gid)

-- A change of one group that keeps its id and what is sound of it.
pub put-Inv :
    (p : ℕ) (t : TGroup) (g : TGroupManager)
    → Inv g
    → t.gid ≡ (g.heap p).gid
    → t.state ≡ (g.heap p).state
    → IsSound t
    → Inv (put p t g)
put-Inv p t g v named same s = record {
  nodup = v.nodup;
  entries = λ j q h. ground (arith, v.entries j q);
  sound = λ q. ground (arith, v.sound q);
  listed = λ q h. ground (arith, v.listed q);
}

joined-Inv :
    (s : GroupState) (p : ℕ) (uid : String) (g : TGroupManager)
    → (g.heap p).state ≡ s
    → Inv g
    → Inv (joined s p uid g).1
unfolding joined
joined-Inv deleted p uid g e v = v
joined-Inv normal p uid g e v =
    put-Inv p _ g v refl refl
      (ground (arith, v.sound p, insert-NodupKeys uid true (g.heap p).users (v.sound p).1))

pub user_join-Inv : (p : ℕ) (uid : String) (g : TGroupManager) → Inv g → Inv (user_join p uid g).1
unfolding user_join
user_join-Inv p uid g v = joined-Inv (g.heap p).state p uid g refl v

pub delete_t_group-Inv : (p : ℕ) (g : TGroupManager) → Inv g → Inv (delete_t_group p g)
unfolding delete_t_group remove_t_group close_send closed_group close
delete_t_group-Inv p g v = record {
  nodup = ground (arith, v.nodup, erase-NodupKeys (g.heap p).gid g.t_groups v.nodup);
  entries = λ gid q h. ground (
    arith,
    v.entries gid q,
    lookup-erase (g.heap p).gid gid g.t_groups,
    eq_iff (g.heap p).gid gid,
  );
  sound = λ q. ground (arith, v.sound q);
  listed = λ q h. ground (
    arith,
    v.listed q,
    lookup-erase (g.heap p).gid (g.heap q).gid g.t_groups,
    eq_iff (g.heap p).gid (g.heap q).gid,
  );
}

pub without-Inv :
    (p : ℕ) (uid : String) (g : TGroupManager) → Inv g → Inv (put p (without uid (g.heap p)) g)
without-Inv p uid g v =
    put-Inv p _ g v refl refl
      (ground (arith, v.sound p, erase-NodupKeys uid (g.heap p).users (v.sound p).1))

delete_if_empty-Inv :
    (m : Dict String Bool) (p : ℕ) (g : TGroupManager) → Inv g → Inv (delete_if_empty m p g)
unfolding delete_if_empty
delete_if_empty-Inv [] p g v = delete_t_group-Inv p g v
delete_if_empty-Inv _ p g v = v

pub user_leave-Inv : (p : ℕ) (uid : String) (g : TGroupManager) → Inv g → Inv (user_leave p uid g)
unfolding user_leave
user_leave-Inv p uid g v = delete_if_empty-Inv _ p _ (without-Inv p uid g v)

-- What a send leaves, where it returns.
abbrev pub SendingInv : Sending → Type 0
SendingInv (returned g) = Inv g
SendingInv blocked = Unit {0}

sending-Inv :
    (p : ℕ) (msg : GroupMsg) (g : TGroupManager)
    → Inv g
    → (g.heap p).state ≡ normal
    → SendingInv (sending p g (send (g.heap p).send msg))
unfolding sending
sending-Inv p msg g v alive = elim (Sent-cases (send (g.heap p).send msg)) [
  | inl e ↦ rw (e, sending) tt
  | inr (inl e) ↦ rw (e, sending) v
  | inr (inr (ch, e)) ↦
      rw (e, sending)
        (put-Inv p _ g v refl refl (ground (arith, v.sound p, send_sent (g.heap p).send msg e)))
]

send_in-Inv :
    (s : GroupState) (p : ℕ) (msg : GroupMsg) (g : TGroupManager)
    → (g.heap p).state ≡ s
    → Inv g
    → SendingInv (send_in s p msg g)
send_in-Inv deleted p msg g e v = v
send_in-Inv normal p msg g e v = sending-Inv p msg g v e

pub send_chan-Inv :
    (p : ℕ) (msg : GroupMsg) (g : TGroupManager) → Inv g → SendingInv (send_chan p msg g)
unfolding send_chan
send_chan-Inv p msg g v = send_in-Inv (g.heap p).state p msg g refl v
