-- ===== src/Ws/Config/Capacity.antt =====
-- service/ws/init_ws.go: the capacities of the channels.
use gim.Base.{zero, suc, ◌<◌, ◌≡◌, ◌⊎◌, inl, inr, refl, ℤ, pos, negsuc, arith}
use gim.Ws.Config.{WsConfig, init_config, with_default, capacity, positive, default_msg_chan_max}

-- A capacity that is positive stays, and any other becomes the default.
abbrev pub Completed : ℤ → ℤ → Type 0
Completed i j =
    (0 < capacity j)
    × ((0 < capacity i) × (j ≡ i) ⊎ (capacity i ≡ 0) × (j ≡ pos default_msg_chan_max))

with_default-Completed : (i : ℤ) → Completed i (with_default i (positive i))
with_default-Completed (pos zero) = (omega arith, inr (refl, refl))
with_default-Completed (pos (suc n)) = (omega arith, inl (omega arith, refl))
with_default-Completed (negsuc n) = (omega arith, inr (refl, refl))

-- After `InitWs` both channels have a positive capacity: the configured one where that is
-- positive, and the default otherwise. Nothing else of the configuration changes.
pub init_config-Completed :
    (c : WsConfig)
    → Completed c.client_msg_chan_max (init_config c).client_msg_chan_max
      × Completed c.group_msg_chan_max (init_config c).group_msg_chan_max
      × (record (init_config c) {
        client_msg_chan_max = c.client_msg_chan_max;
        group_msg_chan_max = c.group_msg_chan_max;
      }
          ≡ c)
unfolding init_config
init_config-Completed c = (
  with_default-Completed c.client_msg_chan_max,
  with_default-Completed c.group_msg_chan_max,
  refl,
)
