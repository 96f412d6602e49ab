-- ===== src/Iosched/Noop.antt =====
-- demos/iosched/iosched.c, the noop scheduler: one FIFO.
use os_kernel_from_scratch.Common.{ℕ, zero, suc}
use os_kernel_from_scratch.Common.{◌≡◌, refl, sym, ap, ◌∙◌}
use os_kernel_from_scratch.Common.{Option, none, some, List, [], ◌∷◌, ◌++◌}
use os_kernel_from_scratch.Common.{take}
use mathlib.Core.List.{append-nil, append_assoc}
use os_kernel_from_scratch.Iosched.Request.{Request}

unfoldable pub noop_init : List Request
noop_init = []

unfoldable pub noop_add_request : List Request → Request → List Request
noop_add_request queue req = queue ++ req ∷ []

-- `none` for NULL.
unfoldable pub noop_dispatch : List Request → Option Request × List Request
noop_dispatch [] = (none, [])
noop_dispatch (req ∷ queue) = (some req, queue)

-- Add the requests in order, then dispatch `n` times.
abbrev pub add_all : List Request → List Request → List Request
add_all queue [] = queue
add_all queue (r ∷ rs) = add_all (noop_add_request queue r) rs

abbrev pub dispatches : ℕ → List Request → List Request
dispatches zero queue = []
dispatches (suc n) queue = elim ((noop_dispatch queue).0) [
  | none ↦ []
  | some r ↦ r ∷ dispatches n (noop_dispatch queue).1
]

add_all-append : (queue rs : List Request) → add_all queue rs ≡ queue ++ rs
unfolding noop_add_request
add_all-append queue [] = sym (append-nil queue)
add_all-append queue (r ∷ rs) = add_all-append (queue ++ r ∷ []) rs ∙ append_assoc queue (r ∷ []) rs

dispatches-take : (n : ℕ) (queue : List Request) → dispatches n queue ≡ take n queue
unfolding noop_dispatch
dispatches-take zero queue = refl
dispatches-take (suc n) [] = refl
dispatches-take (suc n) (r ∷ queue) = ap (λ l. r ∷ l) (dispatches-take n queue)

-- Requests leave the noop scheduler in the order in which they came, those queued before first.
pub noop_fifo :
    (n : ℕ) (queue rs : List Request) → dispatches n (add_all queue rs) ≡ take n (queue ++ rs)
noop_fifo n queue rs = rw (add_all-append queue rs) (dispatches-take n (queue ++ rs))
