-- ===== src/Start/Connections.antt =====
-- pkg/redis_client/redis.go and pkg/etcd_client/etcd.go: the clients that all parts share.
use gim.Base.{◌≡◌, refl, String, Option, none, some, List, [], ◌∷◌, Option-cases, inl, inr, ◌⊎◌}
use gim.ImErr.{Err, Result, ok, err}

-- A panic leaves the variable as it is then.
pub data Created (Client : Type 0) : Type 0 where
  created : Option Client → Created Client
  panicked : Err → Option Client → Created Client

-- Every endpoint gives its status.
abbrev AllUp : (String → Option Err) → List String → Type 0
AllUp status [] = Unit
AllUp status (ep ∷ rest) = (status ep ≡ none) × AllUp status rest

module _ {Client : Type 0} where
  -- `redis_client.CreateClient`, with the new client and what it answers to a ping.
  unfoldable pub create_redis_client : Client → Result String → Created Client
  create_redis_client client (ok pong) = created (some client)
  create_redis_client client (err e) = panicked e (some client)

  -- The loop over the endpoints: the first that gives no status is a panic.
  unfoldable pub check_endpoints : (String → Option Err) → List String → Client → Created Client
  check_endpoints status [] client = created (some client)
  check_endpoints status (ep ∷ rest) client = elim (status ep) [
    | some e ↦ panicked e (some client)
    | none ↦ check_endpoints status rest client
  ]

  -- `etcd_client.CreateClient`
  unfoldable pub create_etcd_client :
      Result Client → (String → Option Err) → List String → Created Client
  unfolding check_endpoints
  create_etcd_client (err e) status endpoints = panicked e none
  create_etcd_client (ok client) status endpoints = check_endpoints status endpoints client

  abbrev pub get_client : Option Client → Option Client
  get_client client = client

  -- `Close` of both: nothing is done without a client, and the variable keeps a closed one.
  unfoldable pub close_client : {S : Type 0} → (Client → S → S) → Option Client → S → S
  close_client close none s = s
  close_client close (some client) s = close client s

  -- The endpoints are all up, and the client is there; or one is down, and its error is the panic.
  check_endpoints_lem :
      (status : String → Option Err) (endpoints : List String) (client : Client)
      → AllUp status endpoints × (check_endpoints status endpoints client ≡ created (some client))
        ⊎ (ep : String) × (e : Err) × (status ep ≡ some e)
          × (check_endpoints status endpoints client ≡ panicked e (some client))
  unfolding check_endpoints
  check_endpoints_lem status [] client = inl (tt, refl)
  check_endpoints_lem status (ep ∷ rest) client = elim (Option-cases (status ep)) [
    | inr (x, e) ↦ inr (ep, x, e, rw (e, check_endpoints) refl)
    | inl e ↦ elim (check_endpoints_lem status rest client) [
      | inl (up, done) ↦ inl ((e, up), rw (e, check_endpoints) done)
      | inr (down, x, f, done) ↦ inr (down, x, f, rw (e, check_endpoints) done)
    ]
  ]
