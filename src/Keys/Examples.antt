-- ===== src/Keys/Examples.antt =====
-- The order of the key queue at a short run.
use vx68k_v.Base.{ℕ, ◌≡◌, refl, [], ◌∷◌, ◌++◌, List}
use vx68k_v.Keys.Order.{Run, done, step, queued, got, Run-order}
use vx68k_v.Keys.{queue_key, get_key}

-- Two keys come, and the first is read.
short-Run : Run [] (1 ∷ 2 ∷ []) (1 ∷ []) (2 ∷ [])
unfolding queue_key get_key
short-Run = step [] (1 ∷ []) (2 ∷ []) (1 ∷ []) [] (2 ∷ []) (1 ∷ []) (queued [] 1) (
    step (1 ∷ []) (1 ∷ 2 ∷ []) (2 ∷ []) (2 ∷ []) [] [] (1 ∷ []) (queued (1 ∷ []) 2) (
      step (1 ∷ 2 ∷ []) (2 ∷ []) (2 ∷ []) [] (1 ∷ []) [] [] (got (1 ∷ 2 ∷ []) (2 ∷ []) 1 refl)
        (done (2 ∷ []))))

Run-order_example : ◌≡◌ {A = List ℕ} ([] ++ (1 ∷ 2 ∷ [])) ((1 ∷ []) ++ (2 ∷ []))
Run-order_example = Run-order short-Run
