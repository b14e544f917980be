-- ===== src/Base/Loops.antt =====
-- Loops with a counter.
use Prim.Native.Nat.{ℕ, zero, suc}
use mathlib.Core.Path.{◌≡◌, refl, ◌∙◌}

-- `n` rounds of a loop whose counter stands at `k`.
unfoldable pub rounds {ℓ} : {A : Type ℓ} → (ℕ → A → A) → ℕ → ℕ → A → A
rounds round k zero acc = acc
rounds round k (suc n) acc = rounds round (suc k) n (round k acc)

-- What a round leaves alone, the loop leaves alone.
pub rounds_same {ℓ κ} :
    {A : Type ℓ} {B : Type κ} (view : A → B) (round : ℕ → A → A)
    → ((k : ℕ) (acc : A) → view (round k acc) ≡ view acc)
    → (k n : ℕ) (acc : A) → view (rounds round k n acc) ≡ view acc
unfolding rounds
rounds_same view round same k zero acc = refl
rounds_same view round same k (suc n) acc =
    rounds_same view round same (suc k) n (round k acc) ∙ same k acc
