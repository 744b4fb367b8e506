-- ===== src/Ws/Handler/Online.antt =====
-- service/ws/handler_ws.go: what redis holds of a user after a login and after a close.
use gim.Base.{
  ◌<>◌, ℕ, ◌≡◌, ◌≢◌, refl, sym, ap, ◌∙◌, String, Bool, true, false, Option, none, some, arith,
  string_eq, if◌then◌else◌,
}
use gim.Base.Dict.{lookup}
use gim.ImErr.{Err, Result, ok, err, im_err, err_user_online}
use gim.Types.Server.{new_server}
use gim.Ws.External.{External, UserOnline}
use gim.Ws.External.Laws.{IsRedis, IsJson}
use gim.Ws.Client.{close, close_in}
use gim.Ws.Node.{Node, ClientState, online, offline, client_at, with_ext}
use gim.Ws.Cache.{
  user_online_prefix, get_user_online_key, del_user_online_info, get_user_rpc_server,
}
use gim.Ws.Cache.Records.{
  record_of, old_of, record_of-del, exchanged, get_set_lem, record_of-exchanged,
  get_user_rpc_server-written,
}
use gim.Ws.ClientManager.{get_client}
use gim.Ws.Handler.{unique_login, login, decide, new_user_online, is_other}
use gim.Ws.Proxy.{RunProxy}

module _ {E : External} (r : IsRedis E) where
  close_in_holds :
      (st : ClientState) (p : ℕ) (n : Node E) (j : String)
      → r.holds (close_in st p n).ext j ≡ r.holds n.ext j
  unfolding close_in
  close_in_holds online p n j = r.close_conn_holds (client_at p n).socket n.ext j
  close_in_holds offline p n j = refl

  pub close_holds : (p : ℕ) (n : Node E) (j : String) → r.holds (close p n).ext j ≡ r.holds n.ext j
  unfolding close
  close_holds p n j = close_in_holds (client_at p n).state p n j

module _ {E : External} (r : IsRedis E) (json : IsJson E) (proxy : RunProxy E) where
  -- The user's record after a login: that of this login on this node; or, where the login is
  -- refused for a user that is here, as before; or, where it is refused otherwise, none.
  pub data Recorded (uid : String) (n : Node E) : Result UserOnline × Node E → Type 0 where
    taken_over :
        (u : UserOnline) (n' : Node E)
        → lookup uid n.client_m.clients ≡ none
        → u.acc_ip ≡ n.server_ip
        → u.rpc_port ≡ n.config.rpc_port
        → u.user_id ≡ uid
        → n'.config ≡ n.config
        → r.holds n'.ext (get_user_online_key uid n) ≡ some (json.written u)
        → Recorded uid n (ok u, n')
    kept :
        (e : Err) (n' : Node E)
        → lookup uid n.client_m.clients ≢ none
        → r.holds n'.ext (get_user_online_key uid n) ≡ r.holds n.ext (get_user_online_key uid n)
        → Recorded uid n (err e, n')
    removed :
        (e : Err) (n' : Node E)
        → lookup uid n.client_m.clients ≡ none
        → r.holds n'.ext (get_user_online_key uid n) ≡ none
        → Recorded uid n (err e, n')

  -- A stop elsewhere does not bring a record back that is not there.
  abbrev pub StopForgets : Type 0
  StopForgets =
      (u : UserOnline) (n : Node E) (j : String)
      → r.holds n.ext j ≡ none
      → r.holds (proxy.stop_user_client u n).ext j ≡ none

  -- What the handler of another node does for a stop does not bring a record back either.
  abbrev pub RemoteForgets : Type 0
  RemoteForgets =
      (cli : ℕ) (uid : String) (s : E.State) (j : String)
      → r.holds s j ≡ none
      → r.holds (E.rpc_stop_user_client cli uid s).1 j ≡ none

  abbrev MadeFor : String → Node E → UserOnline → Type 0
  MadeFor uid n u = (u.acc_ip ≡ n.server_ip) × (u.rpc_port ≡ n.config.rpc_port) × (u.user_id ≡ uid)

  module _ (forgets : StopForgets) where
    other-Recorded :
        (other : Bool) (uid : String) (u old : UserOnline) (n : Node E) (s : E.State)
        → lookup uid n.client_m.clients ≡ none
        → MadeFor uid n u
        → r.holds s (get_user_online_key uid n) ≡ some (json.written u)
        → Recorded uid n (
            if other
            then (
              err (im_err err_user_online),
              proxy.stop_user_client old (del_user_online_info uid (with_ext s n)).1,
            )
            else (ok u, with_ext s n))
    unfolding get_user_online_key
    other-Recorded true uid u old n s free made held =
        let gone : Node E = (del_user_online_info uid (with_ext s n)).1 in
        removed _ _ free
          (forgets old gone (get_user_online_key uid n) (record_of-del r uid (with_ext s n)))
    other-Recorded false uid u old n s free made held =
        taken_over u (with_ext s n) free made.0 made.1 made.2 refl held

    decided-Recorded :
        (x : Option UserOnline × Option Err) (uid : String) (u : UserOnline) (n : Node E)
        (s : E.State)
        → lookup uid n.client_m.clients ≡ none
        → MadeFor uid n u
        → r.holds s (get_user_online_key uid n) ≡ some (json.written u)
        → Recorded uid n (decide proxy uid u (x, with_ext s n))
    unfolding decide get_user_online_key
    decided-Recorded (old, some e) uid u n s free made held =
        removed e _ free (record_of-del r uid (with_ext s n))
    decided-Recorded (none, none) uid u n s free made held =
        taken_over u (with_ext s n) free made.0 made.1 made.2 refl held
    decided-Recorded (some old, none) uid u n s free made held =
        other-Recorded (is_other proxy old u) uid u old n s free made held

    login-Recorded :
        (uid : String) (socket : ℕ) (n : Node E)
        → lookup uid n.client_m.clients ≡ none
        → Recorded uid n (login proxy uid socket n)
    unfolding login new_user_online get_user_online_key
    login-Recorded uid socket n free =
        let (rand_uuid, s) = E.unique_id n.ext in
        let u = new_user_online uid rand_uuid (E.remote_addr socket s) n in
        let m : Node E = with_ext s n in
        rw (get_set_lem r json uid u m) (
          decided-Recorded (old_of r (record_of r uid m)) uid u n (exchanged r json uid u m) free
            (refl, refl, refl) (record_of-exchanged r json uid u m))

    -- While redis answers as IsRedis says and records are encoded as IsJson says, with a proxy
    -- whose StopUserClient brings no record back: a user without a client on the node logs in,
    -- and redis then has the record of this very login, with the address of this node, or is
    -- refused, and redis then has none; a user with a client is refused, and the record is as
    -- before.
    pub unique_login-Recorded :
        (uid : String) (socket : ℕ) (n : Node E) → Recorded uid n (unique_login proxy uid socket n)
    unfolding unique_login get_client
    unique_login-Recorded uid socket n = found (lookup uid n.client_m.clients) refl
      where
        found :
            (o : Option ℕ)
            → lookup uid n.client_m.clients ≡ o
            → Recorded uid n (elim o [
              | some p ↦ (err (im_err err_user_online), close p n)
              | none ↦ login proxy uid socket n
            ])
        found (some p) h =
            kept _ (close p n) (λ e. ground arith) (close_holds r p n (get_user_online_key uid n))
        found none h = login-Recorded uid socket n h

    resolved :
        (uid : String) (n : Node E) (x : Result UserOnline × Node E) (u : UserOnline)
        → Recorded uid n x
        → x.0 ≡ ok u
        → (u.acc_ip ≡ n.server_ip)
          × (u.rpc_port ≡ n.config.rpc_port)
          × (r.holds x.1.ext (get_user_online_key uid n) ≡ some (json.written u))
    resolved uid n _ u (taken_over u' n' free ip port user same held) h =
        ground (arith, ip, port, held)
    resolved uid n _ u (kept e n' here held) h = cc
    resolved uid n _ u (removed e n' free held) h = cc

    -- While redis answers as IsRedis says and records are encoded as IsJson says, after a login
    -- that is not refused, with a proxy whose StopUserClient brings no record back, every node
    -- with the same key prefix that sees the record in redis as the login left it, and decodes
    -- it as it was encoded, reaches the user at the address of the node of the login, if that
    -- node has an ip and an rpc port.
    pub get_user_rpc_server-unique_login :
        (uid : String) (socket : ℕ) (n m : Node E) (u : UserOnline)
        → (unique_login proxy uid socket n).0 ≡ ok u
        → E.unmarshal_user_online (json.written u) ≡ (u, none)
        → m.config.redis_prefix ≡ n.config.redis_prefix
        → r.holds m.ext (get_user_online_key uid n)
          ≡ r.holds (unique_login proxy uid socket n).1.ext (get_user_online_key uid n)
        → n.server_ip ≢ ""
        → n.config.rpc_port ≢ ""
        → (get_user_rpc_server uid m).0 ≡ ok (new_server n.server_ip n.config.rpc_port)
    unfolding get_user_online_key
    get_user_rpc_server-unique_login uid socket n m u done back prefix seen ip port =
        let (same_ip, same_port, held) =
          resolved uid n (unique_login proxy uid socket n) u (unique_login-Recorded uid socket n)
            done in
        get_user_rpc_server-written r json uid u m
          (ap (λ x. r.holds m.ext (x <> (user_online_prefix <> uid))) prefix ∙ (seen ∙ held)) back
          (λ e. ip (sym same_ip ∙ e)) (λ e. port (sym same_port ∙ e))
        ∙ ground (arith, same_ip, same_port)
