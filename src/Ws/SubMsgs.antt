-- ===== src/Ws/SubMsgs.antt =====
-- service/ws/proxy_msg_queue.go: what a node does with a message of the subscription channel.
use gim.Base.{String, Option, none, some, List, [], ◌∷◌, ◌==◌, string_eq, if◌then◌else◌}
use gim.ImErr.{Err}
use gim.Types.Response.{
  Any, nil, object, AData, ResponseData, new_response_data, new_mol_response_data,
  new_ctrl_response_data,
}
use gim.Types.Message.{Bytes, SubMsg}
use gim.Ws.External.{External}
use gim.Ws.Node.{Node}
use gim.Ws.Proxy.{RunProxy}

-- A `*AData` as a value of `interface{}`.
any_of : Option AData → Any
any_of none = nil
any_of (some a) = object a

-- The data, wrapped as the message asks.
unfoldable pub response_data_of : SubMsg → ResponseData
unfolding any_of new_response_data new_mol_response_data new_ctrl_response_data
response_data_of m =
    if m.mol == ""
    then new_response_data m.content []
    else if m.ctrl == ""
    then new_mol_response_data (any_of m.content) m.mol
    else new_ctrl_response_data (any_of m.content) m.mol m.ctrl

module _ {E : External} where
  -- The error of a send is dropped.
  abbrev pub node_of : Option (Option Err × Node E) → Option (Node E)
  node_of none = none
  node_of (some (e, n)) = some n

module _ {E : External} (proxy : RunProxy E) where
  -- `sendResDataToGroup`: to one user of the group, or to the group on this node. `none`: it waits.
  unfoldable pub send_res_data_to_group : String → ResponseData → SubMsg → Node E → Option (Node E)
  send_res_data_to_group tgid response_data m n =
      if m.to_uid == ""
      then node_of (proxy.send_res_data_to_local_group tgid response_data m.except_uid n)
      else some (proxy.send_res_data_to_user_by_tgid m.to_uid tgid response_data n).1

  send_to_list : List String → ResponseData → SubMsg → Node E → Option (Node E)
  send_to_list [] response_data m n = some n
  send_to_list (tgid ∷ rest) response_data m n =
      elim (if tgid == "" then some n else send_res_data_to_group tgid response_data m n) [
        | none ↦ none
        | some n' ↦ send_to_list rest response_data m n'
      ]

  to_user : ResponseData → SubMsg → Node E → Option (Node E)
  to_user response_data m n =
      if m.to_uid == ""
      then some n
      else some (proxy.send_res_data_to_user m.to_uid response_data n).1

  to_list_or_user : List String → ResponseData → SubMsg → Node E → Option (Node E)
  unfolding send_to_list to_user
  to_list_or_user [] response_data m n = to_user response_data m n
  to_list_or_user (t ∷ ts) response_data m n = send_to_list (t ∷ ts) response_data m n

  -- A message that is understood goes to its group, else to its groups, else to its user.
  unfoldable pub route : SubMsg → Node E → Option (Node E)
  unfolding to_list_or_user
  route m n =
      if m.tgid == ""
      then to_list_or_user m.tgid_list (response_data_of m) m n
      else send_res_data_to_group m.tgid (response_data_of m) m n

  unfoldable pub handle_decoded : SubMsg × Option Err → Node E → Option (Node E)
  handle_decoded (m, some e) n = some n
  handle_decoded (m, none) n = route m n

  -- A message that is not understood is logged and dropped.
  unfoldable pub handle_sub_msg : Bytes → Node E → Option (Node E)
  handle_sub_msg msg n = handle_decoded (E.unmarshal_sub_msg msg) n
