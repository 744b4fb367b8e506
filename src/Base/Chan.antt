-- ===== src/Base/Chan.antt =====
-- A buffered Go channel. Sending on a closed channel and closing it twice panic.
use Prim.Native.Nat.{ℕ, ◌≤◌}
use mathlib.Core.Path.{◌≡◌, refl}
use mathlib.Core.Logic.{◌⊎◌, inl, inr}
use mathlib.Core.Bool.{Bool, true, false}
use mathlib.Core.Option.{Option, none, some}
use mathlib.Core.List.{List, [], ◌∷◌, ◌++◌}
use native.Mathlib.Omega.{arith}
use gim.Base.Tests.{ltb, if◌then◌else◌}
use gim.Base.Lists.{length, length-append}

pub record Chan {ℓ} (A : Type ℓ) : Type ℓ where
  pub buffer : List A
  pub cap : ℕ
  pub closed : Bool

pub data Sent {ℓ} (A : Type ℓ) : Type ℓ where
  sent : Chan A → Sent A
  full : Sent A
  panicked : Sent A

pub data Received {ℓ} (A : Type ℓ) : Type ℓ where
  received : A → Chan A → Received A
  waiting : Received A
  finished : Received A

module _ {ℓ} {A : Type ℓ} where
  -- `make(chan A, cap)`
  abbrev pub make : ℕ → Chan A
  make cap = record { buffer = []; cap = cap; closed = false }

  -- `ch <- a`. On `full` a plain send waits, and a `select` takes its default.
  unfoldable pub send : Chan A → A → Sent A
  send ch a =
      if ch.closed
      then panicked
      else if ltb (length ch.buffer) ch.cap
      then sent (record ch { buffer = ch.buffer ++ a ∷ [] })
      else full

  -- `close(ch)`. `none` is the panic of a second close.
  unfoldable pub close : Chan A → Option (Chan A)
  close ch = if ch.closed then none else some (record ch { closed = true })

  take_first : Chan A → List A → Received A
  take_first ch [] = if ch.closed then finished else waiting
  take_first ch (a ∷ rest) = received a (record ch { buffer = rest })

  -- One round of `for a := range ch`: what is in the buffer still comes after a close.
  unfoldable pub receive : Chan A → Received A
  unfolding take_first
  receive ch = take_first ch ch.buffer

  -- The buffer is never over its capacity.
  abbrev pub IsBounded : Chan A → Type 0
  IsBounded ch = length ch.buffer ≤ ch.cap

  pub send-IsBounded : (ch : Chan A) (a : A) {ch' : Chan A} → send ch a ≡ sent ch' → IsBounded ch'
  unfolding send
  send-IsBounded ch a h = ground (arith, length-append ch.buffer (a ∷ []))

  pub send_sent :
      (ch : Chan A) (a : A) {ch' : Chan A}
      → send ch a ≡ sent ch'
      → (ch.closed ≡ false) × (ch' ≡ record ch { buffer = ch.buffer ++ a ∷ [] })
  unfolding send
  send_sent ch a h = ground arith

  pub Sent-cases : (r : Sent A) → (r ≡ full) ⊎ ((r ≡ panicked) ⊎ ((ch : Chan A) × (r ≡ sent ch)))
  Sent-cases full = inl refl
  Sent-cases panicked = inr (inl refl)
  Sent-cases (sent ch) = inr (inr (ch, refl))

  take_first-closed :
      (ch : Chan A) (buffer : List A) (a : A) (ch' : Chan A)
      → take_first ch buffer ≡ received a ch'
      → ch'.closed ≡ ch.closed
  unfolding take_first
  take_first-closed ch [] a ch' h = ground arith
  take_first-closed ch (b ∷ rest) a ch' h = ground arith

  pub receive-closed :
      (ch : Chan A) (a : A) (ch' : Chan A) → receive ch ≡ received a ch' → ch'.closed ≡ ch.closed
  unfolding receive
  receive-closed ch a ch' h = take_first-closed ch ch.buffer a ch' h

  take_first-finished :
      (ch : Chan A) (buffer : List A) → take_first ch buffer ≡ finished → ch.closed ≡ true
  unfolding take_first
  take_first-finished ch [] h = ground arith
  take_first-finished ch (b ∷ rest) h = ground arith

  pub receive-finished : (ch : Chan A) → receive ch ≡ finished → ch.closed ≡ true
  unfolding receive
  receive-finished ch h = take_first-finished ch ch.buffer h

  pub receive-nil :
      (ch : Chan A) → ch.buffer ≡ [] → receive ch ≡ (if ch.closed then finished else waiting)
  unfolding receive
  receive-nil ch e = rw (e, take_first)

  pub receive-cons :
      (ch : Chan A) (a : A) (rest : List A)
      → ch.buffer ≡ a ∷ rest
      → receive ch ≡ received a (record ch { buffer = rest })
  unfolding receive
  receive-cons ch a rest e = rw (e, take_first)
