-- ===== src/Ws/Cache/Records.antt =====
-- service/ws/cache.go: what redis holds of a user after each call, and what is read back.
use gim.Base.{
  Bool, ==_refl, ◌≡◌, ◌≢◌, refl, ap, ◌∙◌, String, Option, none, some, arith, ◌==◌, string_eq,
  nat_eq, if◌then◌else◌,
}
use text.Mathlib.TextEquality.{eq_iff}
use gim.ImErr.{Err, ok}
use gim.Types.Message.{Bytes}
use gim.Types.Server.{new_server}
use gim.Ws.External.{External, UserOnline, Reply}
use gim.Ws.External.Laws.{IsRedis, IsJson, reply_of}
use gim.Ws.Config.{WsConfig, get_user_online_exp_time}
use gim.Ws.Config.ExpTime.{exp_time_positive}
use gim.Ws.Node.{Node, with_ext}
use gim.Ws.Cache.{
  get_user_online_key, get_set_user_online_info, after_get_set, decode_old, del_user_online_info,
  get_user_online_info, decode_reply, decoded, get_user_rpc_server, server_of,
}

module _ {E : External} (r : IsRedis E) where
  -- What redis holds of a user, under the key that the node `n` uses.
  abbrev pub record_of : String → Node E → Option Bytes
  record_of uid n = r.holds n.ext (get_user_online_key uid n)

  -- No value of redis but that of the user is changed.
  abbrev pub OthersHeld : String → Node E → Node E → Type 0
  OthersHeld uid n n' =
      (j : String) → j ≢ get_user_online_key uid n → r.holds n'.ext j ≡ r.holds n.ext j

  pub record_of-del :
      (uid : String) (n : Node E)
      → r.holds (del_user_online_info uid n).1.ext (get_user_online_key uid n) ≡ none
  unfolding del_user_online_info
  record_of-del uid n =
      let key = get_user_online_key uid n in
      ground (arith, r.del_holds key n.ext key, eq_iff key key)

  pub OthersHeld-del : (uid : String) (n : Node E) → OthersHeld uid n (del_user_online_info uid n).1
  unfolding del_user_online_info
  OthersHeld-del uid n j h =
      ground (
        arith,
        r.del_holds (get_user_online_key uid n) n.ext j,
        eq_iff (get_user_online_key uid n) j,
      )

  -- The record that was there, as the exchange reads it.
  abbrev pub old_of : Option Bytes → Option UserOnline × Option Err
  old_of none = (none, none)
  old_of (some bytes) = decode_old E.unmarshal_user_online bytes

  -- The time that the service gives to a record is never 0, so that redis keeps the record.
  kept_alive :
      (key j : String) (c : WsConfig) (s : E.State)
      → r.holds (E.redis_expire key (get_user_online_exp_time c) s).1 j ≡ r.holds s j
  kept_alive key j c s =
      ground (arith, r.expire_holds key (get_user_online_exp_time c) s j, exp_time_positive c)

  module _ (json : IsJson E) where
    -- Redis after the exchange and the new time to live.
    abbrev pub exchanged : String → UserOnline → Node E → E.State
    exchanged uid u n =
        (E.redis_expire (get_user_online_key uid n) (get_user_online_exp_time n.config)
          (E.redis_get_set (get_user_online_key uid n) (json.written u) n.ext).1).1

    after-exchanged :
        (key : String) (held : Option Bytes) (reply : Reply) (n : Node E)
        → reply ≡ reply_of held
        → after_get_set key reply n ≡ (
          old_of held,
          with_ext (E.redis_expire key (get_user_online_exp_time n.config) n.ext).1 n,
        )
    unfolding after_get_set decode_old
    after-exchanged key none reply n h = rw h refl
    after-exchanged key (some bytes) reply n h = rw h refl

    -- The exchange answers with the record that was there, and leaves the rest of the node alone.
    pub get_set_lem :
        (uid : String) (u : UserOnline) (n : Node E)
        → get_set_user_online_info uid u n
          ≡ (old_of (record_of uid n), with_ext (exchanged uid u n) n)
    unfolding get_set_user_online_info
    get_set_lem uid u n =
        rw (json.marshals u, get_set_user_online_info)
          (after-exchanged (get_user_online_key uid n) (record_of uid n)
            (E.redis_get_set (get_user_online_key uid n) (json.written u) n.ext).0
            (with_ext (E.redis_get_set (get_user_online_key uid n) (json.written u) n.ext).1 n)
            (r.get_set_reply (get_user_online_key uid n) (json.written u) n.ext))

    pub exchanged-holds :
        (uid : String) (u : UserOnline) (n : Node E) (j : String)
        → r.holds (exchanged uid u n) j
          ≡ (if get_user_online_key uid n == j then some (json.written u) else r.holds n.ext j)
    exchanged-holds uid u n j =
        let key = get_user_online_key uid n in
        kept_alive key j n.config (E.redis_get_set key (json.written u) n.ext).1
        ∙ r.get_set_holds key (json.written u) n.ext j

    pub record_of-exchanged :
        (uid : String) (u : UserOnline) (n : Node E)
        → r.holds (exchanged uid u n) (get_user_online_key uid n) ≡ some (json.written u)
    record_of-exchanged uid u n =
        let key = get_user_online_key uid n in
        exchanged-holds uid u n key
        ∙ ap (λ (b : Bool). if b then some (json.written u) else r.holds n.ext key) (==_refl key)

    -- A record that is in redis is read back as it was written.
    pub get_user_online_info-written :
        (uid : String) (u : UserOnline) (n : Node E)
        → record_of uid n ≡ some (json.written u)
        → E.unmarshal_user_online (json.written u) ≡ (u, none)
        → (get_user_online_info uid n).0 ≡ ok u
    unfolding get_user_online_info decode_reply decoded
    get_user_online_info-written uid u n h back =
        rw (r.get_reply (get_user_online_key uid n) n.ext, decode_reply)
          (rw (h, decode_reply) (ap decoded back))

    -- The node that a record names is the one that its user is reached at.
    pub get_user_rpc_server-written :
        (uid : String) (u : UserOnline) (n : Node E)
        → record_of uid n ≡ some (json.written u)
        → E.unmarshal_user_online (json.written u) ≡ (u, none)
        → u.acc_ip ≢ ""
        → u.rpc_port ≢ ""
        → (get_user_rpc_server uid n).0 ≡ ok (new_server u.acc_ip u.rpc_port)
    unfolding get_user_rpc_server server_of
    get_user_rpc_server-written uid u n h back ip port = ground (
      arith,
      get_user_online_info-written uid u n h back,
      eq_iff u.acc_ip "",
      eq_iff u.rpc_port "",
    )
