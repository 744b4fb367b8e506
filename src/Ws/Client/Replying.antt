-- ===== src/Ws/Client/Replying.antt =====
-- service/ws/client.go: what `SendResponseData` and `SendErr` write.
use gim.Base.{
  ℕ, pos, ◌≡◌, refl, ap, String, Option, none, some, [], ◌∷◌, ◌==◌, string_eq, nat_eq,
  if◌then◌else◌, arith,
}
use gim.ImErr.{Err, Result, ok, err}
use gim.Types.Message.{Bytes}
use gim.Types.Response.{
  SysError, system, AData, entry, empty, Response, new_response, new_response_data, new_err_a_data,
  new_system,
}
use gim.Ws.External.{External}
use gim.Ws.Node.{Node, ClientState, online, offline, client_at, with_ext}
use gim.Ws.Client.{
  send_err, send_response_data, send_response_msg, send_marshalled, safe_send_msg, send_in,
  write_now,
}

-- A response of the type `response` with status 1.
abbrev pub success : String → String → Option AData → Response
success seq cmd a = record {
  seq = seq;
  cmd = cmd;
  msg_type = pos 1;
  r_data = some (record { s = pos 1; a = a });
}

-- What a client reads of an error: nothing of one that has no text.
abbrev shown : String → Option SysError
shown msg = if msg == "" then none else some (record { kind = pos 0; msg = msg })

abbrev pub failure : String → String → String → Response
failure seq cmd msg =
    success seq cmd (some (entry "system" (system (record { errror = shown msg })) empty))

system_shown : (msg : String) → new_system msg (pos 0 ∷ []) ≡ record { errror = shown msg }
unfolding new_system
system_shown msg = ground arith

err_data :
    (msg : String)
    → new_err_a_data msg (pos 0) ≡ entry "system" (system (record { errror = shown msg })) empty
unfolding new_err_a_data
err_data msg = ap (λ s. entry "system" (system s) empty) (system_shown msg)

module _ {E : External} where
  -- A response is written at once, to an online client, if it has a text; nothing else happens.
  abbrev written : ClientState → ℕ → Result Bytes → Node E → Node E
  written online p (ok bytes) n =
      with_ext (E.write_message (client_at p n).socket (client_at p n).msg_code bytes n.ext).1 n
  written online p (err e) n = n
  written offline p r n = n

  abbrev pub delivered : ℕ → Option Response → Node E → Node E
  delivered p none n = n
  delivered p (some response) n = written (client_at p n).state p (E.marshal_response response) n

  sent_in :
      (s : ClientState) (bytes : Bytes) (p : ℕ) (n : Node E)
      → (send_in s bytes 1 p n).1 ≡ written s p (ok bytes) n
  unfolding send_in write_now
  sent_in online bytes p n = refl
  sent_in offline bytes p n = refl

  unwritten : (s : ClientState) (e : Err) (p : ℕ) (n : Node E) → n ≡ written s p (err e) n
  unwritten online e p n = refl
  unwritten offline e p n = refl

  sent_marshalled :
      (r : Result Bytes) (p : ℕ) (n : Node E)
      → (send_marshalled r 1 p n).1 ≡ written (client_at p n).state p r n
  unfolding send_marshalled safe_send_msg
  sent_marshalled (ok bytes) p n = sent_in (client_at p n).state bytes p n
  sent_marshalled (err e) p n = unwritten (client_at p n).state e p n

  pub sent_success :
      (seq cmd : String) (a : Option AData) (p : ℕ) (n : Node E)
      → (send_response_data (new_response_data a []) seq cmd (pos 1) p n).1
        ≡ delivered p (some (success seq cmd a)) n
  unfolding send_response_data send_response_msg new_response new_response_data
  sent_success seq cmd a p n = sent_marshalled (E.marshal_response (success seq cmd a)) p n

  pub sent_failure :
      (seq cmd msg : String) (p : ℕ) (n : Node E)
      → (send_err msg (pos 0) seq cmd p n).1 ≡ delivered p (some (failure seq cmd msg)) n
  unfolding send_err
  sent_failure seq cmd msg p n = rw (err_data msg) (
      sent_success seq cmd (some (entry "system" (system (record { errror = shown msg })) empty)) p
        n)
