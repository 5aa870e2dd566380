-- ===== src/Machine/Keyboard.antt =====
-- The keyboard: the key events of `gtk_console` in libvx68k-gtk/gtkconsole.cc, the modifiers and the
-- queue of class machine in libvx68k/machine.cc, and the IOCS calls _B_KEYINP, _B_KEYSNS and
-- _B_SFTSNS of libvx68k/systemrom.cc.
use Prim.Native.Nat.{bit_and, bit_xor, bit_or}
use vx68k_v.Base.{
  ℕ, ◌+◌, ◌-◌, ◌≡◌, refl, sym, ap, ◌∙◌, Bool, true, false, List, [], ◌∷◌, ◌++◌, ◌==◌, Option, none,
  some, if◌then◌else◌, append_assoc, append-nil,
}
use vx68k_v.Keys.{Queue, queue_key, peek_key, get_key}

pub record Keyboard : Type 0 where
  pub queue : Queue
  pub modifiers : ℕ

unfoldable pub set_key_modifiers : (mask value : ℕ) → Keyboard → Keyboard
set_key_modifiers mask value k = record k {
  modifiers = bit_xor (bit_and k.modifiers (65535 - mask)) value;
}

-- The key of an event, as far as the handlers tell keys apart.
pub data Keyval : Type 0 where
  shift_l shift_r control_l control_r other : Keyval

abbrev press_modifiers : Keyval → Keyboard → Keyboard
press_modifiers shift_l k = set_key_modifiers 0x01 0x01 k
press_modifiers shift_r k = set_key_modifiers 0x01 0x01 k
press_modifiers control_l k = set_key_modifiers 0x02 0x02 k
press_modifiers control_r k = set_key_modifiers 0x02 0x02 k
press_modifiers other k = k

-- The loop over the string of an event, as `uint16_type` takes its characters.
abbrev pub queue_all : List ℕ → Keyboard → Keyboard
queue_all [] k = k
queue_all (c ∷ cs) k = queue_all cs (record k { queue = queue_key c k.queue })

unfoldable pub handle_key_press_event : List ℕ → Keyval → Keyboard → Keyboard
unfolding set_key_modifiers
handle_key_press_event string keyval k = press_modifiers keyval (queue_all string k)

unfoldable pub handle_key_release_event : Keyval → Keyboard → Keyboard
unfolding set_key_modifiers
handle_key_release_event shift_l k = set_key_modifiers 0x01 0x00 k
handle_key_release_event shift_r k = set_key_modifiers 0x01 0x00 k
handle_key_release_event control_l k = set_key_modifiers 0x02 0x00 k
handle_key_release_event control_r k = set_key_modifiers 0x02 0x00 k
handle_key_release_event other k = k

-- What the calls leave in %d0; _B_KEYINP waits on an empty queue.
unfoldable pub iocs_b_keyinp : Keyboard → Option (ℕ × Keyboard)
iocs_b_keyinp k = elim (get_key k.queue) [
  | none ↦ none
  | some (key, q) ↦ some (key, record k { queue = q })
]

unfoldable pub iocs_b_keysns : Keyboard → ℕ
iocs_b_keysns k = if peek_key k.queue == 0 then 0 else bit_or 0x10000 (peek_key k.queue)

unfoldable pub iocs_b_sftsns : Keyboard → ℕ
iocs_b_sftsns k = k.modifiers

-- A history of events, and what it should leave: a modifier is held if the last event of one of its
-- keys is a press, and the characters of the presses are queued in order.
pub data Event : Type 0 where
  press : (string : List ℕ) → Keyval → Event
  release : Keyval → Event

unfoldable pub handle_all : List Event → Keyboard → Keyboard
unfolding handle_key_press_event handle_key_release_event
handle_all [] k = k
handle_all (press s v ∷ es) k = handle_all es (handle_key_press_event s v k)
handle_all (release v ∷ es) k = handle_all es (handle_key_release_event v k)

abbrev pub Held : Type 0
Held = Bool × Bool

abbrev changed : Bool → Keyval → Held → Held
changed b shift_l (s, c) = (b, c)
changed b shift_r (s, c) = (b, c)
changed b control_l (s, c) = (s, b)
changed b control_r (s, c) = (s, b)
changed b other h = h

pub held : List Event → Held → Held
held [] h = h
held (press s v ∷ es) h = held es (changed true v h)
held (release v ∷ es) h = held es (changed false v h)

pub typed : List Event → List ℕ
typed [] = []
typed (press s v ∷ es) = s ++ typed es
typed (release v ∷ es) = typed es

abbrev pub mask_of : Held → ℕ
mask_of (s, c) = (if s then 1 else 0) + (if c then 2 else 0)

queue_all-queue : (s : List ℕ) (k : Keyboard) → queue_all s k ≡ record k { queue = k.queue ++ s }
unfolding queue_key
queue_all-queue [] k = ap (λ q. record k { queue = q }) (sym (append-nil k.queue))
queue_all-queue (c ∷ cs) k =
    queue_all-queue cs (record k { queue = k.queue ++ c ∷ [] })
    ∙ ap (λ q. record k { queue = q }) (append_assoc k.queue (c ∷ []) cs)

keyboard : Queue → Held → Keyboard
keyboard q h = record { queue = q; modifiers = mask_of h }

-- The two bits, set and cleared.
set_shift :
    (b s c : Bool)
    → bit_xor (bit_and (mask_of (s, c)) (65535 - 1)) (if b then 1 else 0) ≡ mask_of (b, c)
set_shift true true true = refl
set_shift true true false = refl
set_shift true false true = refl
set_shift true false false = refl
set_shift false true true = refl
set_shift false true false = refl
set_shift false false true = refl
set_shift false false false = refl

set_control :
    (b s c : Bool)
    → bit_xor (bit_and (mask_of (s, c)) (65535 - 2)) (if b then 2 else 0) ≡ mask_of (s, b)
set_control true true true = refl
set_control true true false = refl
set_control true false true = refl
set_control true false false = refl
set_control false true true = refl
set_control false true false = refl
set_control false false true = refl
set_control false false false = refl

with_modifiers :
    (q : Queue) {m n : ℕ}
    → m ≡ n
    → ◌≡◌ {A = Keyboard} (record { queue = q; modifiers = m }) (record { queue = q; modifiers = n })
with_modifiers q e = ap (λ i. record { queue = q; modifiers = i }) e

press-changed :
    (s : List ℕ) (v : Keyval) (h : Held) (q : Queue)
    → handle_key_press_event s v (keyboard q h) ≡ keyboard (q ++ s) (changed true v h)
unfolding handle_key_press_event keyboard
press-changed s shift_l (a, c) q =
    rw (queue_all-queue s (keyboard q (a, c))) (with_modifiers (q ++ s) (set_shift true a c))
press-changed s shift_r (a, c) q =
    rw (queue_all-queue s (keyboard q (a, c))) (with_modifiers (q ++ s) (set_shift true a c))
press-changed s control_l (a, c) q =
    rw (queue_all-queue s (keyboard q (a, c))) (with_modifiers (q ++ s) (set_control true a c))
press-changed s control_r (a, c) q =
    rw (queue_all-queue s (keyboard q (a, c))) (with_modifiers (q ++ s) (set_control true a c))
press-changed s other (a, c) q = queue_all-queue s (keyboard q (a, c))

release-changed :
    (v : Keyval) (h : Held) (q : Queue)
    → handle_key_release_event v (keyboard q h) ≡ keyboard q (changed false v h)
unfolding handle_key_release_event keyboard
release-changed shift_l (a, c) q = with_modifiers q (set_shift false a c)
release-changed shift_r (a, c) q = with_modifiers q (set_shift false a c)
release-changed control_l (a, c) q = with_modifiers q (set_control false a c)
release-changed control_r (a, c) q = with_modifiers q (set_control false a c)
release-changed other (a, c) q = refl

handle_all-held :
    (es : List Event) (q : Queue) (h : Held)
    → handle_all es (keyboard q h) ≡ keyboard (q ++ typed es) (held es h)
unfolding handle_all held typed
handle_all-held [] q h = ap (λ r. keyboard r h) (sym (append-nil q))
handle_all-held (press s v ∷ es) q h = rw (press-changed s v h q) (
    handle_all-held es (q ++ s) (changed true v h)
    ∙ ap (λ r. keyboard r (held es (changed true v h))) (append_assoc q s (typed es)))
handle_all-held (release v ∷ es) q h =
    rw (release-changed v h q) (handle_all-held es q (changed false v h))

-- After any history of key events from a keyboard with an empty queue and no modifier, _B_SFTSNS
-- reports each modifier exactly if the last event of its two keys is a press, and the queue holds the
-- characters of the presses in order.
pub iocs_b_sftsns-held :
    (es : List Event)
    → let k : Keyboard = handle_all es (record { queue = []; modifiers = 0 }) in
      (iocs_b_sftsns k ≡ mask_of (held es (false, false))) × (k.queue ≡ typed es)
unfolding iocs_b_sftsns keyboard
iocs_b_sftsns-held es =
    let e = handle_all-held es [] (false, false) in (ap (λ k. k.modifiers) e, ap (λ k. k.queue) e)
