-- ===== src/Etcd/Register.antt =====
-- pkg/etcd_registry/registry.go: registration under a lease that is kept alive.
pub mod Close
use gim.Base.{ℕ, zero, suc, String, Bool, true, false, Option, none, some, List, [], ◌∷◌}
use gim.ImErr.{Err, Result, ok, err}

-- The calls of the etcd client. A keep-alive channel is a number.
pub record Etcd : Type 1 where
  pub State : Type 0
  pub grant : ℕ → State → Result ℕ × State
  pub put : String → String → ℕ → State → Option Err × State
  pub keep_alive : ℕ → State → Result ℕ × State
  pub revoke : ℕ → State → Option Err × State
  pub close_client : State → Option Err × State

-- `status`: 1, 2 and 3.
pub data Status : Type 0 where
  registering registered closed : Status

pub record ServiceRegister : Type 0 where
  pub lease : ℕ
  pub status : Status
  pub lease_id : ℕ
  pub keep_alive_chan : Option ℕ
  pub name : String
  pub addr : String

module _ (C : Etcd) where
  kept_alive : ServiceRegister → ℕ → Result ℕ × C.State → Option Err × ServiceRegister × C.State
  kept_alive r id (err e, s) = (some e, r, s)
  kept_alive r id (ok chan, s) =
      (none, record r { lease_id = id; keep_alive_chan = some chan; status = registered }, s)

  entered : ServiceRegister → ℕ → Option Err × C.State → Option Err × ServiceRegister × C.State
  unfolding kept_alive
  entered r id (some e, s) = (some e, r, s)
  entered r id (none, s) = kept_alive r id (C.keep_alive id s)

  granted : ServiceRegister → Result ℕ × C.State → Option Err × ServiceRegister × C.State
  unfolding entered
  granted r (err e, s) = (some e, r, s)
  granted r (ok id, s) = entered r id (C.put r.name r.addr id s)

  -- Grant, put, keep alive; the first that fails ends it, and the register is as before.
  unfoldable pub put_key_with_lease :
      ℕ → ServiceRegister → C.State → Option Err × ServiceRegister × C.State
  unfolding granted
  put_key_with_lease lease r s = granted r (C.grant lease s)

  made : Option Err × ServiceRegister × C.State → Result ServiceRegister × C.State
  made (some e, r, s) = (err e, s)
  made (none, r, s) = (ok r, s)

  unfoldable pub new_service_register :
      String → String → ℕ → C.State → Result ServiceRegister × C.State
  unfolding made put_key_with_lease
  new_service_register name addr lease s = made (
      put_key_with_lease lease
        (record {
          lease = lease;
          status = registering;
          lease_id = 0;
          keep_alive_chan = none;
          name = name;
          addr = addr;
        })
        s)

  -- `Close`: the status first, then the lease; the client is closed only if that went well.
  revoked : ServiceRegister → Option Err × C.State → Option Err × ServiceRegister × C.State
  revoked r (some e, s) = (some e, r, s)
  revoked r (none, s) = let (e, s') = C.close_client s in (e, r, s')

  unfoldable pub close : ServiceRegister → C.State → Option Err × ServiceRegister × C.State
  unfolding revoked
  close r s = revoked (record r { status = closed }) (C.revoke r.lease_id s)

  -- What another goroutine does to the register and to etcd.
  abbrev pub Other : Type 0
  Other = ServiceRegister × C.State → ServiceRegister × C.State

  abbrev pub closing : Other
  unfolding close
  closing (r, s) = ((close r s).1, (close r s).2)

module _ (C : Etcd) (working asleep : ℕ → Other C) where
  -- The retry loop of `ListenLeaseRespChan`, on fuel: `false` that it found the register closed,
  -- `true` that it registered again and a new listener runs. `working` comes between the look at
  -- the status and the registration, `asleep` during the pause after a failure.
  unfoldable pub retry : ℕ → ServiceRegister → C.State → Option (Bool × ServiceRegister × C.State)
  unfolding put_key_with_lease
  retry zero r s = none
  retry (suc fuel) r s =
      let (r', s') = working fuel (r, s) in
      let (e, r'', s'') = put_key_with_lease C r'.lease r' s' in
      let (r3, s3) = asleep fuel (r'', s'') in
      let again = retry fuel r3 s3 in
      let tried : Option (Bool × ServiceRegister × C.State) = elim e [
        | none ↦ some (true, r'', s'')
        | some _ ↦ again
      ] in
      elim r.status [ closed ↦ some (false, r, s) | registering ↦ tried | registered ↦ tried ]

-- The responses of a keep-alive channel, until it is closed.
unfoldable pub drain {ℓ κ} : {A : Type ℓ} {S : Type κ} → (A → S → S) → List A → S → S
drain f [] s = s
drain f (x ∷ xs) s = drain f xs (f x s)

module _ (C : Etcd) (working asleep : ℕ → Other C) {A : Type 0} (f : A → C.State → C.State) where
  -- `ListenLeaseRespChan`: the responses, and then the retry loop; where that answers `true`, a new
  -- listener runs on the new channel.
  unfoldable pub listen_lease_resp_chan :
      ℕ → List A → ServiceRegister → C.State → Option (Bool × ServiceRegister × C.State)
  unfolding retry drain
  listen_lease_resp_chan fuel responses r s = retry C working asleep fuel r (drain f responses s)
