-- ===== src/Board/World/Rules.antt =====
-- Total correctness of a method: it ends without a fault, in a store that meets a postcondition.
use white_board_server.Prelude.{◌≡◌, some}
use white_board_server.Board.World.Defs.{World, M, ◌>>=◌}

abbrev pub Ends {ℓ} : {A : Type 0} → M A → World → (A → World → Type ℓ) → Type ℓ
Ends {A} m w Q = (a : A) × (w' : World) × (m w ≡ some (a, w')) × Q a w'

pub Ends-bind {ℓ} :
    {A B : Type 0} (m : M A) (f : A → M B) (w : World) (Q : B → World → Type ℓ)
    → Ends m w (λ a w'. Ends (f a) w' Q)
    → Ends (m >>= f) w Q
Ends-bind m f w Q (a, w', e, (b, w'', e', q)) = (b, w'', rw (e, ◌>>=◌) e', q)
