-- ===== src/Ws/Handler/Race.antt =====
-- service/ws/handler_ws.go: two logins of one user at once. The second runs after `uniqueLogin` of the
-- first, and before the first enters its client.
use gim.Base.{
  ℕ, ◌≡◌, ◌≢◌, refl, ap, sym, subst, ◌∙◌, String, none, some, arith, string_eq, nat_eq, [], ◌∷◌,
  ◌<>◌,
}
use text.Mathlib.TextEquality.{eq_iff}
use gim.Base.Dict.{lookup}
use gim.ImErr.{Err, Result, ok, err, im_err, err_user_online}
use gim.Ws.Cache.{user_online_prefix, get_user_online_key, decode_old}
use gim.Ws.Cache.Records.{record_of, old_of, exchanged, get_set_lem}
use gim.Ws.Config.{conn_keep_time}
use gim.Ws.Client.{new_client, init_start, on_connect, set_conn_dead_line}
use gim.Ws.External.{External, Opcode, UserOnline}
use gim.Ws.External.Laws.{IsRedis, IsJson}
use gim.Ws.Handler.{
  get_uid, handler_up, msg_code_of, start_client, unique_login, login, decide, new_user_online,
  close_conn,
}
use gim.Ws.Handler.Free.{unique_login-unrecorded}
use gim.Ws.Handler.Login.{
  SameRegisters, StopKeeps, notes, started-IsAdmitted, login-SameRegisters, unique_login-free,
}
use gim.Ws.Handler.Online.{Recorded, taken_over, kept, removed, StopForgets, unique_login-Recorded}
use gim.Ws.Node.{Node, online, client_at, with_ext}
use gim.Types.Message.{Bytes}
use gim.Ws.Proxy.{RunProxy}

module _ {E : External} (r : IsRedis E) (json : IsJson E) (proxy : RunProxy E) where
  -- The time limit of a connection is no concern of redis.
  abbrev pub DeadlineKeeps : Type 0
  DeadlineKeeps =
      (socket t : ℕ) (s : E.State) (j : String)
      → r.holds (E.set_read_deadline socket t s) j ≡ r.holds s j

  deadline_holds :
      (quiet : DeadlineKeeps) (p : ℕ) (n : Node E) (j : String)
      → r.holds (set_conn_dead_line p n).ext j ≡ r.holds n.ext j
  unfolding set_conn_dead_line
  deadline_holds quiet p n j =
      ground (arith, quiet (client_at p n).socket (conn_keep_time n.config) n.ext j)

  start_holds :
      (quiet : DeadlineKeeps) (socket : ℕ) (uid : String) (opcode : Opcode) (u : UserOnline)
      (n : Node E) (j : String)
      → r.holds (start_client proxy socket uid opcode (ok u, n)).ext j ≡ r.holds n.ext j
  unfolding start_client init_start new_client
  start_holds quiet socket uid opcode u n j =
      let (p, made) = new_client socket uid u.rand_uuid opcode n in
      deadline_holds quiet p (record made { client_m = on_connect p made.client_m }) j

  -- The old record is of another login: this one is refused.
  decide_other :
      (uid : String) (u old : UserOnline) (n : Node E)
      → old.rand_uuid ≢ u.rand_uuid
      → (decide proxy uid u ((some old, none), n)).0 ≡ err (im_err err_user_online)
  unfolding decide
  decide_other uid u old n differs = ground (arith, eq_iff old.rand_uuid u.rand_uuid)

  start_refused :
      (socket : ℕ) (uid : String) (opcode : Opcode) (x : Result UserOnline × Node E) (e : Err)
      → x.0 ≡ err e
      → start_client proxy socket uid opcode x ≡ close_conn socket x.1
  unfolding start_client
  start_refused socket uid opcode (err x, n) e d = refl
  start_refused socket uid opcode (ok u, n) e d = cc

  read_text :
      (bytes : Bytes) (u : UserOnline)
      → bytes ≢ []
      → E.unmarshal_user_online bytes ≡ (u, none)
      → decode_old E.unmarshal_user_online bytes ≡ (some u, none)
  unfolding decode_old
  read_text [] u text back = elim (text refl) [ ]
  read_text (b ∷ bs) u text back = rw back refl

  same_key :
      (uid : String) (n m : Node E)
      → m.config.redis_prefix ≡ n.config.redis_prefix
      → get_user_online_key uid m ≡ get_user_online_key uid n
  unfolding get_user_online_key
  same_key uid n m e = ap (λ prefix. prefix <> (user_online_prefix <> uid)) e

  -- The user has a client on the node, online, and redis has no record of the user: another node
  -- with the same redis admits the user as well.
  abbrev pub IsUnrecorded : String → Node E → Node E → Type 0
  IsUnrecorded uid n n' =
      (p : ℕ) × (lookup uid n'.client_m.clients ≡ some p)
      × ((client_at p n').state ≡ online)
      × (r.holds n'.ext (get_user_online_key uid n) ≡ none)
      × ((m : Node E) (socket : ℕ)
          → lookup uid m.client_m.clients ≡ none
          → m.config.redis_prefix ≡ n.config.redis_prefix
          → m.ext ≡ n'.ext
          → (u : UserOnline) × ((unique_login proxy uid socket m).0 ≡ ok u))

  module _ (keeps : StopKeeps proxy) (forgets : StopForgets r json proxy) where
    -- A login that finds the record of another one is refused.
    second_refused :
        (uid : String) (socket : ℕ) (old : UserOnline) (n : Node E)
        → lookup uid n.client_m.clients ≡ none
        → record_of r uid n ≡ some (json.written old)
        → old_of r (some (json.written old)) ≡ (some old, none)
        → old.rand_uuid ≢ (E.unique_id n.ext).0
        → (unique_login proxy uid socket n).0 ≡ err (im_err err_user_online)
    unfolding login new_user_online get_user_online_key
    second_refused uid socket old n free held back differs =
        let (rand_uuid, s) = E.unique_id n.ext in
        let u = new_user_online uid rand_uuid (E.remote_addr socket s) n in
        let m : Node E = with_ext s n in
        let there = r.unique_id_holds n.ext (get_user_online_key uid n) ∙ held in
        ap (λ x. x.0) (unique_login-free proxy keeps uid socket n free)
        ∙ rw (get_set_lem r json uid u m) (
            ap (λ o. (decide proxy uid u (o, with_ext (exchanged r json uid u m) m)).0)
              (ap (old_of r) there ∙ back)
            ∙ decide_other uid u old (with_ext (exchanged r json uid u m) m) differs)

    refused_record :
        (uid : String) (n : Node E) (x : Result UserOnline × Node E) (e : Err)
        → Recorded r json proxy uid n x
        → lookup uid n.client_m.clients ≡ none
        → x.0 ≡ err e
        → r.holds x.1.ext (get_user_online_key uid n) ≡ none
    refused_record uid n _ e (taken_over u n' free ip port user same held) h d = cc
    refused_record uid n _ e (kept x n' here held) h d = ground (arith, here h)
    refused_record uid n _ e (removed x n' free held) h d = held

    unique_login-SameRegisters :
        (uid : String) (socket : ℕ) (n : Node E)
        → lookup uid n.client_m.clients ≡ none
        → SameRegisters n (unique_login proxy uid socket n).1
    unique_login-SameRegisters uid socket n free =
        subst (λ x. SameRegisters n x.1) (sym (unique_login-free proxy keeps uid socket n free))
          (login-SameRegisters proxy keeps uid socket n)

    -- The second login is over, and the first enters its client.
    unrecorded :
        (quiet : DeadlineKeeps) (uid : String) (first second : ℕ) (opcode : Opcode) (u : UserOnline)
        (n m x : Node E)
        → lookup uid m.client_m.clients ≡ none
        → SameRegisters m x
        → r.holds x.ext (get_user_online_key uid n) ≡ none
        → IsUnrecorded uid n (start_client proxy first uid opcode (ok u, close_conn second x))
    unfolding start_client close_conn notes
    unrecorded quiet uid first second opcode u n m x free same gone =
        let w : Node E = close_conn second x in
        let a = started-IsAdmitted first uid u.rand_uuid opcode m w same free in
        let none_held =
          start_holds quiet first uid opcode u w (get_user_online_key uid n)
          ∙ r.close_conn_holds second x.ext (get_user_online_key uid n)
          ∙ gone in
        (
          m.client_m.next,
          a.entry,
          a.is_online,
          none_held,
          λ k socket absent prefix seen.
              unique_login-unrecorded r json proxy keeps uid socket k absent (
                ap (λ s. r.holds s (get_user_online_key uid k)) seen
                ∙ ap (r.holds _) (same_key uid n k prefix)
                ∙ none_held),
        )

    second_handler_up :
        (uid : String) (socket : ℕ) (get_msg_code : String) (n : Node E) (e : Err)
        → get_uid socket n ≡ uid
        → uid ≢ ""
        → (unique_login proxy uid socket n).0 ≡ err e
        → handler_up proxy socket get_msg_code n
          ≡ close_conn socket (unique_login proxy uid socket n).1
    unfolding handler_up
    second_handler_up uid socket get_msg_code n e same named d =
        rw (same, handler_up)
          (ground (arith, eq_iff uid "", start_refused socket uid (msg_code_of get_msg_code) _ e d))

    first_held :
        (uid : String) (n : Node E) (x : Result UserOnline × Node E) (u : UserOnline)
        → Recorded r json proxy uid n x
        → x.0 ≡ ok u
        → (x.1.config ≡ n.config)
          × (r.holds x.1.ext (get_user_online_key uid n) ≡ some (json.written u))
    first_held uid n _ u (taken_over u' n' free ip port user same held) d =
        (same, ground (arith, held, d))
    first_held uid n _ u (kept e n' here held) d = cc
    first_held uid n _ u (removed e n' free held) d = cc

    -- While redis answers as IsRedis says, records are encoded as IsJson says, and time limits of
    -- connections are no concern of redis, with a proxy whose StopUserClient leaves the registers
    -- alone and brings no record back: if a whole second login of a user without a client runs
    -- between the uniqueLogin of a first one, which passes, and the entry of its client, the record
    -- of the first has a text that is decoded as it was encoded, and the ids of the two differ,
    -- then the first ends with a client of the user that is registered and online, while redis has
    -- no record of the user, so that another node with the same redis, key prefix and no client of
    -- the user lets the user log in as well.
    pub handler_up-IsUnrecorded :
        (quiet : DeadlineKeeps) (uid : String) (first second : ℕ) (opcode : Opcode)
        (get_msg_code : String) (u : UserOnline) (n : Node E)
        → uid ≢ ""
        → lookup uid n.client_m.clients ≡ none
        → (unique_login proxy uid first n).0 ≡ ok u
        → json.written u ≢ []
        → E.unmarshal_user_online (json.written u) ≡ (u, none)
        → get_uid second (unique_login proxy uid first n).1 ≡ uid
        → u.rand_uuid ≢ (E.unique_id (unique_login proxy uid first n).1.ext).0
        → IsUnrecorded uid n (
            start_client proxy first uid opcode
              (ok u, handler_up proxy second get_msg_code (unique_login proxy uid first n).1))
    handler_up-IsUnrecorded quiet uid first second opcode get_msg_code u n named free done text back
          same differs =
        let m : Node E = (unique_login proxy uid first n).1 in
        let (config, held) =
          first_held uid n (unique_login proxy uid first n) u
            (unique_login-Recorded r json proxy forgets uid first n) done in
        let key : get_user_online_key uid m ≡ get_user_online_key uid n =
          same_key uid n m (ap (λ c. c.redis_prefix) config) in
        let kept = unique_login-SameRegisters uid first n free in
        let free' : lookup uid m.client_m.clients ≡ none = ap (lookup uid) kept.0 ∙ free in
        let refused =
          second_refused uid second u m free' (ap (r.holds m.ext) key ∙ held)
            (read_text (json.written u) u text back) differs in
        let up = second_handler_up uid second get_msg_code m _ same named refused in
        subst (λ x. IsUnrecorded uid n (start_client proxy first uid opcode (ok u, x))) (sym up)
          (unrecorded quiet uid first second opcode u n m (unique_login proxy uid second m).1 free'
            (unique_login-SameRegisters uid second m free')
            (sym (ap (r.holds _) key)
              ∙ refused_record uid m (unique_login proxy uid second m) _
                  (unique_login-Recorded r json proxy forgets uid second m) free' refused))
