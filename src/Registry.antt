-- ===== src/Registry.antt =====
-- cart/src/scenes_builtin.c: the registry of the built-in scenes and its lookups.
use Prim.Native.String.{String}
use vita_linux_next.Prelude.{
  ℕ, zero, suc, ◌+◌, ◌-◌, ◌%◌, ◌≤◌, ◌≡◌, refl, List, [], ◌∷◌, Option, none, some, arith, leb, ◌==◌,
  if◌then◌else◌, length, get_elem?, ◌>>=◌,
}

-- The render functions, by name.
pub data Renderer : Type 0 where
  candy girl_mode bubblegum butterfly_riot hyperdrive too_much : Renderer

-- `struct cart_scene`.
pub record Scene : Type 0 where
  pub id : ℕ
  pub display_name : String
  pub preferred_width : ℕ
  pub preferred_height : ℕ
  pub capabilities : ℕ
  pub render : Renderer

abbrev pub cap_2d : ℕ
cap_2d = 1

abbrev scene : ℕ → String → Renderer → Scene
scene id name render = record {
  id = id;
  display_name = name;
  preferred_width = 320;
  preferred_height = 180;
  capabilities = cap_2d;
  render = render;
}

abbrev pub builtin_scenes : List Scene
builtin_scenes =
    scene 0 "Candy Vortex" candy
    ∷ scene 1 "Girl Mode" girl_mode
    ∷ scene 2 "Bubblegum Overdrive" bubblegum
    ∷ scene 3 "Butterfly Riot" butterfly_riot
    ∷ scene 4 "She Her Hyperdrive" hyperdrive
    ∷ scene 5 "Too Much Is Enough" too_much
    ∷ []

unfoldable pub scene_count : ℕ
scene_count = length builtin_scenes

unfoldable pub scene_at : ℕ → Option Scene
scene_at index = if leb scene_count index then none else get_elem? builtin_scenes index

-- The loop of the lookups: the first index from `index` on whose scene has the identity.
unfoldable pub index_of_id : List Scene → ℕ → ℕ → Option ℕ
index_of_id [] index id = none
index_of_id (s ∷ scenes) index id =
    if s.id == id then some index else index_of_id scenes (index + 1) id

unfoldable pub find : ℕ → Option Scene
find id = do index ← index_of_id builtin_scenes 0 id; get_elem? builtin_scenes index

unfoldable pub next : ℕ → Option Scene
next id = do
  index ← index_of_id builtin_scenes 0 id
  get_elem? builtin_scenes ((index + 1) % scene_count)

unfoldable pub previous : ℕ → Option Scene
previous id = do
  index ← index_of_id builtin_scenes 0 id
  get_elem? builtin_scenes ((index + scene_count - 1) % scene_count)

unknown : (id : ℕ) → 6 ≤ id → index_of_id builtin_scenes 0 id ≡ none
unfolding index_of_id
unknown id h = ground arith

-- A statement of every identity is one of the six scenes and one of everything beyond them.
by_scene :
    (P : ℕ → Type 0)
    → P 0 × P 1 × P 2 × P 3 × P 4 × P 5
    → ((id : ℕ) → 6 ≤ id → P id)
    → (id : ℕ) → P id
by_scene P known beyond zero = known.0
by_scene P known beyond (suc zero) = known.1
by_scene P known beyond (suc (suc zero)) = known.2
by_scene P known beyond (suc (suc (suc zero))) = known.3
by_scene P known beyond (suc (suc (suc (suc zero)))) = known.4
by_scene P known beyond (suc (suc (suc (suc (suc zero))))) = known.5
by_scene P known beyond (suc (suc (suc (suc (suc (suc n)))))) =
    beyond (suc (suc (suc (suc (suc (suc n)))))) (omega arith)

-- The identity of a scene is its index, so a lookup by identity finds what a lookup by index finds,
-- and both find nothing from the number of scenes on.
find-eq-at : (id : ℕ) → find id ≡ scene_at id
unfolding find scene_at scene_count index_of_id
find-eq-at =
    by_scene (λ id. find id ≡ scene_at id) (refl, refl, refl, refl, refl, refl)
      (λ id beyond. rw (unknown id beyond) (ground arith))

-- Stepping to the next scene and back, or back and forth, ends at the scene itself, also at the two
-- ends of the registry; an identity that no scene has leads nowhere, as `find` does.
pub next-previous_scene :
    (id : ℕ)
    → ((next id >>= λ s. previous s.id) ≡ find id) × ((previous id >>= λ s. next s.id) ≡ find id)
unfolding next previous find scene_count index_of_id
next-previous_scene =
    by_scene
      (λ id.
        ((next id >>= λ s. previous s.id) ≡ find id) × ((previous id >>= λ s. next s.id) ≡ find id))
      ((refl, refl), (refl, refl), (refl, refl), (refl, refl), (refl, refl), (refl, refl))
      (λ id beyond. (rw (unknown id beyond) refl, rw (unknown id beyond) refl))
