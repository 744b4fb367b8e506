-- ===== src/Etcd/Register/Close.antt =====
-- What a registration does, and what is left of a `Close`.
use gim.Base.{
  String, ℕ, zero, suc, ◌<◌, ◌≡◌, ◌≢◌, refl, inl, inr, true, false, Option, none, some, arith,
  Eq-cases, nat_eq,
}
use gim.ImErr.{Err, Result, ok, err}
use gim.Etcd.Register.{
  Etcd, ServiceRegister, registered, closed, put_key_with_lease, Other, closing, close, retry, made,
  new_service_register, registering, granted, entered, kept_alive, revoked,
}

abbrev new_register : String → String → ℕ → ServiceRegister
new_register name addr lease = record {
  lease = lease;
  status = registering;
  lease_id = 0;
  keep_alive_chan = none;
  name = name;
  addr = addr;
}

module _ (C : Etcd) where
  -- The outcome of a registration, on every branch.
  abbrev pub Registration : ServiceRegister → Option Err × ServiceRegister × C.State → Type 0
  Registration r (none, r', s) =
      (id : ℕ) × (chan : ℕ) × (r'
        ≡ record r { lease_id = id; keep_alive_chan = some chan; status = registered })
  Registration r (some e, r', s) = r' ≡ r

  kept_alive-Registration :
      (r : ServiceRegister) (id : ℕ) (x : Result ℕ × C.State) → Registration r (kept_alive C r id x)
  unfolding kept_alive
  kept_alive-Registration r id (err e, s) = refl
  kept_alive-Registration r id (ok chan, s) = (id, chan, refl)

  entered-Registration :
      (r : ServiceRegister) (id : ℕ) (x : Option Err × C.State) → Registration r (entered C r id x)
  unfolding entered
  entered-Registration r id (some e, s) = refl
  entered-Registration r id (none, s) = kept_alive-Registration r id (C.keep_alive id s)

  granted-Registration :
      (r : ServiceRegister) (x : Result ℕ × C.State) → Registration r (granted C r x)
  unfolding granted
  granted-Registration r (err e, s) = refl
  granted-Registration r (ok id, s) = entered-Registration r id (C.put r.name r.addr id s)

  -- A registration that fails at any of its three calls leaves the register as it was; one that
  -- goes well sets the lease, the channel and the status, and nothing else.
  pub put_key_with_lease-Registration :
      (lease : ℕ) (r : ServiceRegister) (s : C.State)
      → Registration r (put_key_with_lease C lease r s)
  unfolding put_key_with_lease
  put_key_with_lease-Registration lease r s = granted-Registration r (C.grant lease s)

  registered_after :
      (r : ServiceRegister) (x : Option Err × ServiceRegister × C.State)
      → Registration r x
      → x.0 ≡ none
      → x.1.status ≡ registered
  registered_after r (some e, r', s) h none_of = cc
  registered_after r (none, r', s) (id, chan, e) none_of = rw e

  made-registered :
      (r : ServiceRegister) (x : Option Err × ServiceRegister × C.State) (r' : ServiceRegister)
      → Registration r x
      → (made C x).0 ≡ ok r'
      → (r'.status ≡ registered) × (r'.name ≡ r.name) × (r'.addr ≡ r.addr)
  unfolding made
  made-registered r (some e, r1, s) r' h done = cc
  made-registered r (none, r1, s) r' (id, chan, e) done = ground (arith, e)

  -- A new register that is made has its entry in etcd.
  pub new_service_register-registered :
      (name addr : String) (lease : ℕ) (s : C.State) (r : ServiceRegister)
      → (new_service_register C name addr lease s).0 ≡ ok r
      → (r.status ≡ registered) × (r.name ≡ name) × (r.addr ≡ addr)
  unfolding new_service_register
  new_service_register-registered name addr lease s r done =
      made-registered (new_register name addr lease) _ r
        (put_key_with_lease-Registration lease (new_register name addr lease) s) done

  pub close_status : (r : ServiceRegister) (s : C.State) → (close C r s).1.status ≡ closed
  unfolding close revoked
  close_status r s = ground arith

  -- etcd takes the entry of `r` in the state `s`.
  abbrev pub Accepts : ServiceRegister → C.State → Type 0
  Accepts r s = (put_key_with_lease C r.lease r s).0 ≡ none

module _ (C : Etcd) (working asleep : ℕ → Other C) where
  -- A closed register is not entered again, and etcd is not called.
  pub retry_closed :
      (fuel : ℕ) (r : ServiceRegister) (s : C.State)
      → r.status ≡ closed
      → retry C working asleep (suc fuel) r s ≡ some (false, r, s)
  unfolding retry
  retry_closed fuel r s e = ground arith

  -- The loop ends once etcd takes the entry in some round, however the others went.
  pub retry_ends :
      (fuel round : ℕ) (r : ServiceRegister) (s : C.State)
      → round < fuel
      → ((r' : ServiceRegister) (s' : C.State)
          → Accepts C (working round (r', s')).0 (working round (r', s')).1)
      → retry C working asleep fuel r s ≢ none
  unfolding retry
  retry_ends zero round r s h up = elim h [ ]
  retry_ends (suc fuel) round r s h up =
      let (r1, s1) = working fuel (r, s) in
      let (e, r2, s2) = put_key_with_lease C r1.lease r1 s1 in
      let (r3, s3) = asleep fuel (r2, s2) in
      elim (Eq-cases round fuel) [
        | inl (_, same) ↦ ground (arith, rw same at (up r s))
        | inr (_, differs) ↦ ground (arith, retry_ends fuel round r3 s3 (omega arith) up)
      ]

  -- A `Close` that comes between the look at the status and the registration is undone: where
  -- etcd still takes the entry, the register is `registered` again under a new lease.
  pub retry_undoes_close :
      (fuel : ℕ) (r : ServiceRegister) (s : C.State)
      → r.status ≢ closed
      → ((p : ServiceRegister × C.State) → working fuel p ≡ closing C p)
      → Accepts C (closing C (r, s)).0 (closing C (r, s)).1
      → (r' : ServiceRegister) × (s' : C.State) × (retry C working asleep (suc fuel) r s
          ≡ some (true, r', s'))
        × ((close C r s).1.status ≡ closed)
        × (r'.status ≡ registered)
  unfolding retry
  retry_undoes_close fuel r s open' between up =
      let q : ServiceRegister × C.State = closing C (r, s) in
      let done = put_key_with_lease C q.0.lease q.0 q.1 in
      (
        done.1,
        done.2,
        ground (arith, between (r, s)),
        close_status C r s,
        registered_after C q.0 done (put_key_with_lease-Registration C q.0.lease q.0 q.1) up,
      )
