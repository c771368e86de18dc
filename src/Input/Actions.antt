-- ===== src/Input/Actions.antt =====
-- cart/src/input_actions.c and cart/include/cart/input_actions.h: from key codes to actions.
use vita_linux_next.Prelude.{ℕ, ◌≡◌, ◌↔◌, ◌⊎◌, Bool, List, [], ◌∷◌, arith, ◌==◌, if◌then◌else◌}

-- `enum cart_input_action`, in its order.
pub data Action : Type 0 where
  quiet next previous select back menu quit : Action

-- `KEY_ACTION_TABLE`, in its order.
abbrev pub key_action_table : List (ℕ × Action)
key_action_table =
    (1, quit)
    ∷ (16, quit)
    ∷ (304, select)
    ∷ (305, back)
    ∷ (307, next)
    ∷ (308, previous)
    ∷ (310, previous)
    ∷ (311, next)
    ∷ (314, menu)
    ∷ (315, menu)
    ∷ (316, quit)
    ∷ (546, previous)
    ∷ (547, next)
    ∷ []

unfoldable pub find_row : List (ℕ × Action) → ℕ → Action
find_row [] code = quiet
find_row ((key, action) ∷ rows) code = if key == code then action else find_row rows code

unfoldable pub map_key : ℕ → Action
unfolding find_row
map_key code = find_row key_action_table code

-- A key repeat (2) and a release (0) emit nothing. The parameter is a `uint16_t`.
unfoldable pub key_emits_action : ℕ → Bool
key_emits_action value = value == 1

-- The rows of the table do not shadow one another, so each action has exactly its keys; every other
-- code is quiet.
pub map_key_codes :
    (code : ℕ)
    → ((map_key code ≡ quit) ↔ ((code ≡ 1) ⊎ (code ≡ 16) ⊎ (code ≡ 316)))
      × ((map_key code ≡ next) ↔ ((code ≡ 307) ⊎ (code ≡ 311) ⊎ (code ≡ 547)))
      × ((map_key code ≡ previous) ↔ ((code ≡ 308) ⊎ (code ≡ 310) ⊎ (code ≡ 546)))
      × ((map_key code ≡ menu) ↔ ((code ≡ 314) ⊎ (code ≡ 315)))
      × ((map_key code ≡ select) ↔ (code ≡ 304))
      × ((map_key code ≡ back) ↔ (code ≡ 305))
unfolding map_key
map_key_codes code = (
  (λ e. ground arith, λ e. ground arith),
  (λ e. ground arith, λ e. ground arith),
  (λ e. ground arith, λ e. ground arith),
  (λ e. ground arith, λ e. ground arith),
  (λ e. ground arith, λ e. ground arith),
  (λ e. ground arith, λ e. ground arith),
)
