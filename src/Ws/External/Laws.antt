-- ===== src/Ws/External/Laws.antt =====
-- What the service relies on in redis and in encoding/json, as their documentation has it.
use gim.Base.{ℕ, ◌≡◌, String, Option, none, some, ◌==◌, string_eq, nat_eq, if◌then◌else◌}
use gim.ImErr.{ok}
use gim.Types.Message.{Bytes}
use gim.Ws.External.{External, UserOnline, Reply, value, missing}

abbrev pub reply_of : Option Bytes → Reply
reply_of none = missing
reply_of (some bytes) = value bytes

-- Redis answers: GETSET gives the old value and sets the new one, GET gives the value, DEL removes
-- it, EXPIRE with the time 0 removes it too, and every other EXPIRE, publishing and everything that is
-- not redis leave the values alone.
pub record IsRedis (E : External) : Type 0 where
  pub holds : E.State → String → Option Bytes
  pub get_set_reply :
      (k : String) (v : Bytes) (s : E.State) → (E.redis_get_set k v s).0 ≡ reply_of (holds s k)
  pub get_set_holds :
      (k : String) (v : Bytes) (s : E.State) (j : String)
      → holds (E.redis_get_set k v s).1 j ≡ (if k == j then some v else holds s j)
  pub get_reply : (k : String) (s : E.State) → (E.redis_get k s).0 ≡ reply_of (holds s k)
  pub get_holds : (k : String) (s : E.State) (j : String) → holds (E.redis_get k s).1 j ≡ holds s j
  pub expire_holds :
      (k : String) (t : ℕ) (s : E.State) (j : String)
      → holds (E.redis_expire k t s).1 j
        ≡ (if t == 0 then (if k == j then none else holds s j) else holds s j)
  pub del_holds :
      (k : String) (s : E.State) (j : String)
      → holds (E.redis_del k s).1 j ≡ (if k == j then none else holds s j)
  pub unique_id_holds : (s : E.State) (j : String) → holds (E.unique_id s).1 j ≡ holds s j
  pub close_conn_holds :
      (socket : ℕ) (s : E.State) (j : String) → holds (E.close_conn socket s) j ≡ holds s j

-- The record of a user is always written, as some text.
pub record IsJson (E : External) : Type 0 where
  pub written : UserOnline → Bytes
  pub marshals : (u : UserOnline) → E.marshal_user_online u ≡ ok (written u)
