-- ===== src/Keys.antt =====
-- libvx68k/machine.cc: the queue of key codes between the front end and the guest.
mod Examples
pub mod Order
use vx68k_v.Base.{ℕ, List, [], ◌∷◌, ◌++◌, Option, none, some}

abbrev pub Queue : Type 0
Queue = List ℕ

unfoldable pub queue_key : ℕ → Queue → Queue
queue_key key q = q ++ key ∷ []

-- 0 if no key is queued.
unfoldable pub peek_key : Queue → ℕ
peek_key [] = 0
peek_key (key ∷ rest) = key

-- None while the queue is empty: the call waits for the next `queue_key`.
unfoldable pub get_key : Queue → Option (ℕ × Queue)
get_key [] = none
get_key (key ∷ rest) = some (key, rest)
