-- ===== src/Helper/Address.antt =====
-- The address of a node.
use gim.Base.{◌≡◌, refl, ◌⊎◌, inl, inr, String, true, false, none, List, [], ◌∷◌, arith, nat_eq}
use gim.ImErr.{ok}
use gim.Helper.{Ip, Addr, Interface, first_ip, external_ip, get_server_ip}

-- No interface of the list has an address that can be used.
abbrev pub NoneUsable : List Interface → Type 0
NoneUsable [] = Unit {0}
NoneUsable (i ∷ rest) =
    ((i.up ≡ false)
      ⊎ ((i.loopback ≡ true)
          ⊎ ((addrs : List Addr) × (i.addrs ≡ ok addrs) × (first_ip addrs ≡ none))))
    × NoneUsable rest

external_ip-none : (ifaces : List Interface) → NoneUsable ifaces → external_ip ifaces ≡ ok none
unfolding external_ip
external_ip-none [] h = refl
external_ip-none (i ∷ rest) (inl down, h) = ground (arith, external_ip-none rest h)
external_ip-none (i ∷ rest) (inr (inl loop), h) = ground (arith, external_ip-none rest h)
external_ip-none (i ∷ rest) (inr (inr (addrs, e, f)), h) = ground (arith, external_ip-none rest h)

-- Without a usable address the node takes the text of a nil address for its own.
pub get_server_ip-nil :
    (show : Ip → String) (ifaces : List Interface)
    → NoneUsable ifaces
    → get_server_ip show (ok ifaces) ≡ "<nil>"
unfolding get_server_ip
get_server_ip-nil show ifaces h = ground (arith, external_ip-none ifaces h)
