-- ===== src/Keys/Order.antt =====
-- The key queue of machine.cc gives the keys in the order in which they come, however the two sides
-- interleave.
use vx68k_v.Base.{
  ℕ, ◌≡◌, refl, ap, sym, ◌∙◌, List, [], ◌∷◌, ◌++◌, append_assoc, append-nil, Option, none, some,
}
use vx68k_v.Keys.{Queue, queue_key, get_key}

-- A step of the front end, of the guest's look at the queue, or of its read, which takes no step
-- while the queue is empty.
pub data Step : Queue → List ℕ → List ℕ → Queue → Type 0 where
  queued : (q : Queue) (key : ℕ) → Step q (key ∷ []) [] (queue_key key q)
  peeked : (q : Queue) → Step q [] [] q
  got : (q rest : Queue) (key : ℕ) → get_key q ≡ some (key, rest) → Step q [] (key ∷ []) rest

-- A run from one queue to another, with the keys that came and the keys that were read.
pub data Run : Queue → List ℕ → List ℕ → Queue → Type 0 where
  done : (q : Queue) → Run q [] [] q
  step :
      (q r s : Queue) (i o is os : List ℕ)
      → Step q i o r
      → Run r is os s
      → Run q (i ++ is) (o ++ os) s

abbrev queue_of : Option (ℕ × Queue) → Queue
queue_of none = []
queue_of (some (key, rest)) = key ∷ rest

get_key-queue_of : (q : Queue) → queue_of (get_key q) ≡ q
unfolding get_key
get_key-queue_of [] = refl
get_key-queue_of (key ∷ rest) = refl

-- One step keeps the keys in order.
Step-order : {q r : Queue} {i o : List ℕ} → Step q i o r → q ++ i ≡ o ++ r
unfolding queue_key
Step-order (queued q key) = refl
Step-order (peeked q) = append-nil q
Step-order (got q rest key e) = append-nil q ∙ sym (get_key-queue_of q) ∙ ap queue_of e

-- Over any run the keys that were queued at the start and then came are the keys that were read and
-- then those that are queued at the end, in the same order.
pub Run-order : {q s : Queue} {i o : List ℕ} → Run q i o s → q ++ i ≡ o ++ s
Run-order (done q) = append-nil q
Run-order (step q r s i o is os one rest) =
    sym (append_assoc q i is)
    ∙ ap (λ l. l ++ is) (Step-order one)
    ∙ append_assoc o r is
    ∙ ap (λ l. o ++ l) (Run-order rest)
    ∙ sym (append_assoc o os s)
