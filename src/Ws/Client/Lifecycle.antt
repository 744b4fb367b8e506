-- ===== src/Ws/Client/Lifecycle.antt =====
-- The end of a client: `Close` and `OnClose`.
use gim.Base.{ℕ, ◌≡◌, refl, Bool, true, false, none, some, arith, nat_eq, string_eq}
use gim.Ws.External.{External}
use gim.Ws.Node.{Node, ClientState, online, offline, client_at, put_client}
use gim.Ws.TGroup.Invariant.{Inv}
use gim.Ws.Client.{
  close, close_in, leave_node, on_close, closing, close_send_chan, run_hook, CloseHook,
}
use gim.Base.Chan.{close as close_chan}
use gim.Ws.Client.Leaving.{
  NotesGroups, HasLeft, OthersStay, leave_node-HasLeft, leave_node-OthersStay,
}
use gim.Ws.Client.Leaving.Kept.{leave_node-keeps}

module _ {E : External} where
  close_in-close_in :
      (s : ClientState) (p : ℕ) (n : Node E)
      → (client_at p n).state ≡ s
      → (client_at p (close_in s p n)).state ≡ offline
  unfolding close_in
  close_in-close_in offline p n e = e
  close_in-close_in online p n e = ground arith

  -- Afterwards the client is offline.
  pub close_offline : (p : ℕ) (n : Node E) → (client_at p (close p n)).state ≡ offline
  unfolding close
  close_offline p n = close_in-close_in (client_at p n).state p n refl

  close_again : (p : ℕ) (n : Node E) → (client_at p n).state ≡ offline → close p n ≡ n
  unfolding close
  close_again p n e = rw (e, close)

  -- A second `Close` does nothing: the connection is closed once.
  close-close : (p : ℕ) (n : Node E) → close p (close p n) ≡ close p n
  close-close p n = close_again p (close p n) (close_offline p n)

  -- What `OnClose` leaves: the client is gone, its channel is closed, and others are untouched.
  abbrev pub IsGone : ℕ → Node E → Node E → Type 0
  IsGone p n n' =
      HasLeft p (client_at p n).user_id (client_at p n).socket n'
      × OthersStay p (client_at p n).user_id (client_at p n).socket n n'
      × ((client_at p n').send_chan.closed ≡ true)
      × ((client_at p n').close_once ≡ true)

  -- The body of `OnClose` runs at most once for a client.
  pub on_close_again :
      (hook : CloseHook E) (p : ℕ) (n : Node E)
      → (client_at p n).close_once ≡ true
      → on_close hook p n ≡ (false, n)
  unfolding on_close
  on_close_again hook p n e = rw (e, on_close)

  -- The hook sees the node after everything else is done.
  pub on_close_hook :
      (f : ℕ → Node E → Bool × Node E) (p : ℕ) (n : Node E)
      → (client_at p n).close_once ≡ false
      → (client_at p n).send_chan.closed ≡ false
      → ((on_close none p n).0 ≡ true) × (on_close (some f) p n ≡ f p (on_close none p n).1)
  unfolding on_close closing close_send_chan run_hook close_chan
  on_close_hook f p n e open' =
      ground
        (arith, leave_node-keeps p (put_client p (record (client_at p n) { close_once = true }) n))

  abbrev pub entered : ℕ → Node E → Node E
  entered p n = put_client p (record (client_at p n) { close_once = true }) n

  entered-NotesGroups : (p : ℕ) (n : Node E) → NotesGroups p n → NotesGroups p (entered p n)
  entered-NotesGroups p n noted = λ gid h. ground (arith, noted gid)

  abbrev pub channel_closed : ℕ → Node E → Node E
  channel_closed p n =
      put_client p
        (record (client_at p n) {
          send_chan = record ((client_at p n).send_chan) { closed = true };
        })
        n

  pub on_close_lem :
      (p : ℕ) (n : Node E)
      → (client_at p n).close_once ≡ false
      → (client_at p n).send_chan.closed ≡ false
      → (on_close none p n).1 ≡ channel_closed p (leave_node p (entered p n))
  unfolding on_close closing close_send_chan run_hook close_chan
  on_close_lem p n e open' = ground (arith, leave_node-keeps p (entered p n))

  channel_closed-IsGone :
      (p : ℕ) (n : Node E)
      → Inv n.t_group_m
      → NotesGroups p n
      → IsGone p n (channel_closed p (leave_node p (entered p n)))
  channel_closed-IsGone p n v noted =
      let gone : Node E = leave_node p (entered p n) in
      let l = leave_node-HasLeft p (entered p n) v (entered-NotesGroups p n noted) in
      let o = leave_node-OthersStay p (entered p n) v (entered-NotesGroups p n noted) in
      (
        record {
          no_entry = ground (arith, l.no_entry);
          no_conn = ground (arith, l.no_conn);
          no_group = λ gid. ground (arith, l.no_group gid);
          is_offline = ground (arith, l.is_offline);
        },
        record {
          entries = λ u h. ground (arith, o.entries u);
          conns = λ s h. ground (arith, o.conns s);
          members = λ gid u h. ground (arith, o.members gid u);
          objects = λ q h. ground (arith, o.objects q h);
        },
        ground arith,
        ground (arith, leave_node-keeps p (entered p n)),
      )

  -- `OnClose` of a client that was not closed before, with no hook.
  pub on_close-IsGone :
      (p : ℕ) (n : Node E)
      → Inv n.t_group_m
      → NotesGroups p n
      → (client_at p n).close_once ≡ false
      → (client_at p n).send_chan.closed ≡ false
      → IsGone p n (on_close none p n).1
  on_close-IsGone p n v noted e open' =
      rw (on_close_lem p n e open') (channel_closed-IsGone p n v noted)
