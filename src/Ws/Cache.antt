-- ===== src/Ws/Cache.antt =====
-- service/ws/cache.go: the online record of a user in redis.
pub mod Records
use gim.Base.{String, ◌<>◌, Option, none, some, [], ◌∷◌, ◌==◌, string_eq, if◌then◌else◌, ◌||◌}
use gim.ImErr.{Err, Result, ok, err, im_err, err_user_offline}
use gim.Types.Message.{Bytes}
use gim.Types.Server.{Server, new_server}
use gim.Ws.Config.{get_user_online_exp_time}
use gim.Ws.External.{External, UserOnline, Reply, value, missing, failed, redis_nil}
use gim.Ws.Node.{Node, with_ext}

abbrev pub user_online_prefix : String
user_online_prefix = "_mws:user:online:"

-- `json.Unmarshal` into a `UserOnline`: what it filled in, and its error.
abbrev Unmarshal : Type 0
Unmarshal = Bytes → UserOnline × Option Err

-- The record that was there before, decoded where there was one.
unfoldable pub decode_old : Unmarshal → Bytes → Option UserOnline × Option Err
decode_old unmarshal [] = (none, none)
decode_old unmarshal (b ∷ bs) = let (old, e) = unmarshal (b ∷ bs) in (some old, e)

decoded : UserOnline × Option Err → Result UserOnline
decoded (online, none) = ok online
decoded (online, some e) = err e

decode_reply : Unmarshal → Reply → Result UserOnline
unfolding decoded
decode_reply unmarshal (failed e) = err e
decode_reply unmarshal missing = err redis_nil
decode_reply unmarshal (value bytes) = decoded (unmarshal bytes)

module _ {E : External} where
  unfoldable pub get_user_online_key : String → Node E → String
  get_user_online_key user_key n = n.config.redis_prefix <> (user_online_prefix <> user_key)

  -- After a GETSET: `expire` is sent whether or not there was a record, and its answer is dropped.
  unfoldable pub after_get_set : String → Reply → Node E → (Option UserOnline × Option Err) × Node E
  unfolding decode_old
  after_get_set key (failed e) n = ((none, some e), n)
  after_get_set key missing n =
      ((none, none), with_ext (E.redis_expire key (get_user_online_exp_time n.config) n.ext).1 n)
  after_get_set key (value bytes) n = (
    decode_old E.unmarshal_user_online bytes,
    with_ext (E.redis_expire key (get_user_online_exp_time n.config) n.ext).1 n,
  )

  unfoldable pub get_set_user_online_info :
      String → UserOnline → Node E → (Option UserOnline × Option Err) × Node E
  unfolding get_user_online_key after_get_set
  get_set_user_online_info user_key user_online n = elim (E.marshal_user_online user_online) [
    | err e ↦ ((none, some e), n)
    | ok bytes ↦
        let key = get_user_online_key user_key n in
        let (reply, s) = E.redis_get_set key bytes n.ext in after_get_set key reply (with_ext s n)
  ]

  unfoldable pub reset_user_online_exp_time : String → Node E → Option Err × Node E
  unfolding get_user_online_key
  reset_user_online_exp_time user_key n =
      let (e, s) =
        E.redis_expire (get_user_online_key user_key n) (get_user_online_exp_time n.config) n.ext in
      (e, with_ext s n)

  unfoldable pub del_user_online_info : String → Node E → Option Err × Node E
  unfolding get_user_online_key
  del_user_online_info user_key n =
      let (e, s) = E.redis_del (get_user_online_key user_key n) n.ext in (e, with_ext s n)

  -- The decoded value is not used by a caller when there is an error.
  unfoldable pub get_user_online_info : String → Node E → Result UserOnline × Node E
  unfolding get_user_online_key decode_reply
  get_user_online_info user_key n =
      let (reply, s) = E.redis_get (get_user_online_key user_key n) n.ext in
      (decode_reply E.unmarshal_user_online reply, with_ext s n)

-- A record with no address stands for a user that is offline.
server_of : Result UserOnline → Result Server
server_of (err e) = err e
server_of (ok info) =
    if info.acc_ip == "" || info.rpc_port == ""
    then err (im_err err_user_offline)
    else ok (new_server info.acc_ip info.rpc_port)

module _ {E : External} where
  unfoldable pub get_user_rpc_server : String → Node E → Result Server × Node E
  unfolding get_user_online_info server_of new_server
  get_user_rpc_server uid n = let (info, n') = get_user_online_info uid n in (server_of info, n')
