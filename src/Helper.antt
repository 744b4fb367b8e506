-- ===== src/Helper.antt =====
-- pkg/helper/server_helper.go: the address of the machine. Texts are lists of code points, and a
-- `net.IP` is the list of its bytes; the methods of `net.IP` are modelled as documented.
pub mod Address
pub mod Fields
use gim.Base.{
  ℕ, zero, suc, ◌+◌, Bool, true, false, ◌&&◌, ◌||◌, Option, none, some, String, List, [], ◌∷◌, ◌++◌,
  ◌==◌, nat_eq, if◌then◌else◌,
}
use gim.ImErr.{Err, Result, ok, err}

-- `net.IP`
abbrev pub Ip : Type 0
Ip = List ℕ

-- `strings.Split` at one character: the pieces, of which there is always one.
unfoldable pub split_from : ℕ → List ℕ → List ℕ → List (List ℕ)
split_from sep piece [] = piece ∷ []
split_from sep piece (c ∷ cs) =
    let next = split_from sep [] cs in
    let more = split_from sep (piece ++ c ∷ []) cs in if c == sep then piece ∷ next else more

unfoldable pub last_or : List ℕ → List (List ℕ) → List ℕ
last_or d [] = d
last_or d (x ∷ xs) = last_or x xs

unfoldable pub get_last_segment_of_ip : List ℕ → List ℕ
unfolding split_from last_or
get_last_segment_of_ip ip = last_or [] (split_from b'.' [] ip)

v4_tail : Ip → Option Ip
v4_tail (a ∷ b ∷ c ∷ d ∷ []) = some (a ∷ b ∷ c ∷ d ∷ [])
v4_tail _ = none

-- The twelve bytes before an IPv4 address in a 16-byte one.
v4_mapped : ℕ → Ip → Option Ip
v4_mapped zero ip = v4_tail ip
v4_mapped (suc k) [] = none
v4_mapped (suc k) (b ∷ rest) =
    let more = v4_mapped k rest in if b == (if k == 0 || k == 1 then 255 else 0) then more else none

abbrev or_mapped : Ip → Option Ip → Option Ip
or_mapped ip none = v4_mapped 12 ip
or_mapped ip (some v4) = some v4

-- `IP.To4`
unfoldable pub to_4 : Ip → Option Ip
unfolding v4_tail v4_mapped
to_4 ip = or_mapped ip (v4_tail ip)

all_zero_then_one : ℕ → Ip → Bool
all_zero_then_one zero (b ∷ []) = b == 1
all_zero_then_one zero _ = false
all_zero_then_one (suc k) [] = false
all_zero_then_one (suc k) (b ∷ rest) = b == 0 && all_zero_then_one k rest

loopback_of : Ip → Option Ip → Bool
loopback_of ip none = all_zero_then_one 15 ip
loopback_of ip (some []) = false
loopback_of ip (some (b ∷ rest)) = b == 127

-- `IP.IsLoopback`
unfoldable pub is_loopback : Ip → Bool
unfolding loopback_of all_zero_then_one to_4
is_loopback ip = loopback_of ip (to_4 ip)

-- `net.Addr`: the two types that carry an address, and any other.
pub data Addr : Type 0 where
  ip_net : Ip → Addr
  ip_addr : Ip → Addr
  other_addr : Addr

pub record Interface : Type 0 where
  pub up : Bool
  pub loopback : Bool
  pub addrs : Result (List Addr)

-- A nil `net.IP` is the empty list.
usable : Ip → Option Ip
usable [] = none
usable (b ∷ rest) = if is_loopback (b ∷ rest) then none else to_4 (b ∷ rest)

unfoldable pub get_ip_from_addr : Addr → Option Ip
unfolding usable
get_ip_from_addr (ip_net ip) = usable ip
get_ip_from_addr (ip_addr ip) = usable ip
get_ip_from_addr other_addr = none

unfoldable pub first_ip : List Addr → Option Ip
first_ip [] = none
first_ip (a ∷ rest) = elim (get_ip_from_addr a) [ some ip ↦ some ip | none ↦ first_ip rest ]

-- The addresses of one interface, and what the rest of the loop gives.
from_addrs : Result (List Addr) → Result (Option Ip) → Result (Option Ip)
from_addrs (err e) rest = err e
from_addrs (ok addrs) rest = elim (first_ip addrs) [ some ip ↦ ok (some ip) | none ↦ rest ]

-- The loop of `externalIP`: with no usable address the result is a nil address and a nil error.
unfoldable pub external_ip : List Interface → Result (Option Ip)
unfolding first_ip from_addrs
external_ip [] = ok none
external_ip (i ∷ rest) =
    let more = external_ip rest in
    if i.up then (if i.loopback then more else from_addrs i.addrs more) else more

-- `IP.String`; `show` prints an address that is not nil.
abbrev ip_string : (Ip → String) → Option Ip → String
ip_string show none = "<nil>"
ip_string show (some ip) = show ip

-- The interfaces are what `net.Interfaces` gives.
unfoldable pub get_server_ip : (Ip → String) → Result (List Interface) → String
unfolding external_ip
get_server_ip show (err e) = ""
get_server_ip show (ok ifaces) = elim (external_ip ifaces) [
  | err e ↦ ""
  | ok ip ↦ ip_string show ip
]
