-- ===== src/Dashboard/Font.antt =====
-- The font of render.c in toolkit/examples/vita-dashboard/src: eight rows of eight pixels for each
-- character from the space to the tilde, the leftmost pixel in the highest bit.
use vita_linux_next.Prelude.{ℕ, List, [], ◌∷◌}

-- `font8x8`.
unfoldable pub font8x8 : List (List ℕ)
font8x8 =
    (0 ∷ 0 ∷ 0 ∷ 0 ∷ 0 ∷ 0 ∷ 0 ∷ 0 ∷ [])
    ∷ (24 ∷ 24 ∷ 24 ∷ 24 ∷ 0 ∷ 0 ∷ 24 ∷ 0 ∷ [])
    ∷ (108 ∷ 108 ∷ 0 ∷ 0 ∷ 0 ∷ 0 ∷ 0 ∷ 0 ∷ [])
    ∷ (108 ∷ 254 ∷ 108 ∷ 108 ∷ 108 ∷ 254 ∷ 108 ∷ 0 ∷ [])
    ∷ (24 ∷ 126 ∷ 192 ∷ 124 ∷ 6 ∷ 252 ∷ 24 ∷ 0 ∷ [])
    ∷ (0 ∷ 198 ∷ 204 ∷ 24 ∷ 48 ∷ 102 ∷ 198 ∷ 0 ∷ [])
    ∷ (56 ∷ 108 ∷ 56 ∷ 118 ∷ 220 ∷ 204 ∷ 118 ∷ 0 ∷ [])
    ∷ (24 ∷ 24 ∷ 48 ∷ 0 ∷ 0 ∷ 0 ∷ 0 ∷ 0 ∷ [])
    ∷ (12 ∷ 24 ∷ 48 ∷ 48 ∷ 48 ∷ 24 ∷ 12 ∷ 0 ∷ [])
    ∷ (48 ∷ 24 ∷ 12 ∷ 12 ∷ 12 ∷ 24 ∷ 48 ∷ 0 ∷ [])
    ∷ (0 ∷ 102 ∷ 60 ∷ 255 ∷ 60 ∷ 102 ∷ 0 ∷ 0 ∷ [])
    ∷ (0 ∷ 24 ∷ 24 ∷ 126 ∷ 24 ∷ 24 ∷ 0 ∷ 0 ∷ [])
    ∷ (0 ∷ 0 ∷ 0 ∷ 0 ∷ 0 ∷ 24 ∷ 24 ∷ 48 ∷ [])
    ∷ (0 ∷ 0 ∷ 0 ∷ 126 ∷ 0 ∷ 0 ∷ 0 ∷ 0 ∷ [])
    ∷ (0 ∷ 0 ∷ 0 ∷ 0 ∷ 0 ∷ 24 ∷ 24 ∷ 0 ∷ [])
    ∷ (6 ∷ 12 ∷ 24 ∷ 48 ∷ 96 ∷ 192 ∷ 128 ∷ 0 ∷ [])
    ∷ (124 ∷ 198 ∷ 206 ∷ 222 ∷ 246 ∷ 230 ∷ 124 ∷ 0 ∷ [])
    ∷ (24 ∷ 56 ∷ 24 ∷ 24 ∷ 24 ∷ 24 ∷ 126 ∷ 0 ∷ [])
    ∷ (124 ∷ 198 ∷ 6 ∷ 28 ∷ 48 ∷ 102 ∷ 254 ∷ 0 ∷ [])
    ∷ (124 ∷ 198 ∷ 6 ∷ 60 ∷ 6 ∷ 198 ∷ 124 ∷ 0 ∷ [])
    ∷ (28 ∷ 60 ∷ 108 ∷ 204 ∷ 254 ∷ 12 ∷ 30 ∷ 0 ∷ [])
    ∷ (254 ∷ 192 ∷ 192 ∷ 252 ∷ 6 ∷ 198 ∷ 124 ∷ 0 ∷ [])
    ∷ (56 ∷ 96 ∷ 192 ∷ 252 ∷ 198 ∷ 198 ∷ 124 ∷ 0 ∷ [])
    ∷ (254 ∷ 198 ∷ 12 ∷ 24 ∷ 48 ∷ 48 ∷ 48 ∷ 0 ∷ [])
    ∷ (124 ∷ 198 ∷ 198 ∷ 124 ∷ 198 ∷ 198 ∷ 124 ∷ 0 ∷ [])
    ∷ (124 ∷ 198 ∷ 198 ∷ 126 ∷ 6 ∷ 12 ∷ 120 ∷ 0 ∷ [])
    ∷ (0 ∷ 24 ∷ 24 ∷ 0 ∷ 0 ∷ 24 ∷ 24 ∷ 0 ∷ [])
    ∷ (0 ∷ 24 ∷ 24 ∷ 0 ∷ 0 ∷ 24 ∷ 24 ∷ 48 ∷ [])
    ∷ (6 ∷ 12 ∷ 24 ∷ 48 ∷ 24 ∷ 12 ∷ 6 ∷ 0 ∷ [])
    ∷ (0 ∷ 0 ∷ 126 ∷ 0 ∷ 126 ∷ 0 ∷ 0 ∷ 0 ∷ [])
    ∷ (96 ∷ 48 ∷ 24 ∷ 12 ∷ 24 ∷ 48 ∷ 96 ∷ 0 ∷ [])
    ∷ (124 ∷ 198 ∷ 12 ∷ 24 ∷ 24 ∷ 0 ∷ 24 ∷ 0 ∷ [])
    ∷ (124 ∷ 198 ∷ 222 ∷ 222 ∷ 222 ∷ 192 ∷ 120 ∷ 0 ∷ [])
    ∷ (56 ∷ 108 ∷ 198 ∷ 198 ∷ 254 ∷ 198 ∷ 198 ∷ 0 ∷ [])
    ∷ (252 ∷ 102 ∷ 102 ∷ 124 ∷ 102 ∷ 102 ∷ 252 ∷ 0 ∷ [])
    ∷ (60 ∷ 102 ∷ 192 ∷ 192 ∷ 192 ∷ 102 ∷ 60 ∷ 0 ∷ [])
    ∷ (248 ∷ 108 ∷ 102 ∷ 102 ∷ 102 ∷ 108 ∷ 248 ∷ 0 ∷ [])
    ∷ (254 ∷ 98 ∷ 104 ∷ 120 ∷ 104 ∷ 98 ∷ 254 ∷ 0 ∷ [])
    ∷ (254 ∷ 98 ∷ 104 ∷ 120 ∷ 104 ∷ 96 ∷ 240 ∷ 0 ∷ [])
    ∷ (60 ∷ 102 ∷ 192 ∷ 192 ∷ 206 ∷ 102 ∷ 58 ∷ 0 ∷ [])
    ∷ (198 ∷ 198 ∷ 198 ∷ 254 ∷ 198 ∷ 198 ∷ 198 ∷ 0 ∷ [])
    ∷ (60 ∷ 24 ∷ 24 ∷ 24 ∷ 24 ∷ 24 ∷ 60 ∷ 0 ∷ [])
    ∷ (30 ∷ 12 ∷ 12 ∷ 12 ∷ 204 ∷ 204 ∷ 120 ∷ 0 ∷ [])
    ∷ (230 ∷ 102 ∷ 108 ∷ 120 ∷ 108 ∷ 102 ∷ 230 ∷ 0 ∷ [])
    ∷ (240 ∷ 96 ∷ 96 ∷ 96 ∷ 98 ∷ 102 ∷ 254 ∷ 0 ∷ [])
    ∷ (198 ∷ 238 ∷ 254 ∷ 254 ∷ 214 ∷ 198 ∷ 198 ∷ 0 ∷ [])
    ∷ (198 ∷ 230 ∷ 246 ∷ 222 ∷ 206 ∷ 198 ∷ 198 ∷ 0 ∷ [])
    ∷ (124 ∷ 198 ∷ 198 ∷ 198 ∷ 198 ∷ 198 ∷ 124 ∷ 0 ∷ [])
    ∷ (252 ∷ 102 ∷ 102 ∷ 124 ∷ 96 ∷ 96 ∷ 240 ∷ 0 ∷ [])
    ∷ (124 ∷ 198 ∷ 198 ∷ 198 ∷ 214 ∷ 222 ∷ 124 ∷ 6 ∷ [])
    ∷ (252 ∷ 102 ∷ 102 ∷ 124 ∷ 108 ∷ 102 ∷ 230 ∷ 0 ∷ [])
    ∷ (124 ∷ 198 ∷ 96 ∷ 56 ∷ 12 ∷ 198 ∷ 124 ∷ 0 ∷ [])
    ∷ (126 ∷ 126 ∷ 90 ∷ 24 ∷ 24 ∷ 24 ∷ 60 ∷ 0 ∷ [])
    ∷ (198 ∷ 198 ∷ 198 ∷ 198 ∷ 198 ∷ 198 ∷ 124 ∷ 0 ∷ [])
    ∷ (198 ∷ 198 ∷ 198 ∷ 198 ∷ 198 ∷ 108 ∷ 56 ∷ 0 ∷ [])
    ∷ (198 ∷ 198 ∷ 198 ∷ 214 ∷ 254 ∷ 238 ∷ 198 ∷ 0 ∷ [])
    ∷ (198 ∷ 198 ∷ 108 ∷ 56 ∷ 108 ∷ 198 ∷ 198 ∷ 0 ∷ [])
    ∷ (102 ∷ 102 ∷ 102 ∷ 60 ∷ 24 ∷ 24 ∷ 60 ∷ 0 ∷ [])
    ∷ (254 ∷ 198 ∷ 140 ∷ 24 ∷ 50 ∷ 102 ∷ 254 ∷ 0 ∷ [])
    ∷ (60 ∷ 48 ∷ 48 ∷ 48 ∷ 48 ∷ 48 ∷ 60 ∷ 0 ∷ [])
    ∷ (192 ∷ 96 ∷ 48 ∷ 24 ∷ 12 ∷ 6 ∷ 2 ∷ 0 ∷ [])
    ∷ (60 ∷ 12 ∷ 12 ∷ 12 ∷ 12 ∷ 12 ∷ 60 ∷ 0 ∷ [])
    ∷ (16 ∷ 56 ∷ 108 ∷ 198 ∷ 0 ∷ 0 ∷ 0 ∷ 0 ∷ [])
    ∷ (0 ∷ 0 ∷ 0 ∷ 0 ∷ 0 ∷ 0 ∷ 0 ∷ 255 ∷ [])
    ∷ (48 ∷ 24 ∷ 12 ∷ 0 ∷ 0 ∷ 0 ∷ 0 ∷ 0 ∷ [])
    ∷ (0 ∷ 0 ∷ 120 ∷ 12 ∷ 124 ∷ 204 ∷ 118 ∷ 0 ∷ [])
    ∷ (224 ∷ 96 ∷ 124 ∷ 102 ∷ 102 ∷ 102 ∷ 220 ∷ 0 ∷ [])
    ∷ (0 ∷ 0 ∷ 124 ∷ 198 ∷ 192 ∷ 198 ∷ 124 ∷ 0 ∷ [])
    ∷ (28 ∷ 12 ∷ 124 ∷ 204 ∷ 204 ∷ 204 ∷ 118 ∷ 0 ∷ [])
    ∷ (0 ∷ 0 ∷ 124 ∷ 198 ∷ 254 ∷ 192 ∷ 124 ∷ 0 ∷ [])
    ∷ (60 ∷ 102 ∷ 96 ∷ 248 ∷ 96 ∷ 96 ∷ 240 ∷ 0 ∷ [])
    ∷ (0 ∷ 0 ∷ 118 ∷ 204 ∷ 204 ∷ 124 ∷ 12 ∷ 248 ∷ [])
    ∷ (224 ∷ 96 ∷ 108 ∷ 118 ∷ 102 ∷ 102 ∷ 230 ∷ 0 ∷ [])
    ∷ (24 ∷ 0 ∷ 56 ∷ 24 ∷ 24 ∷ 24 ∷ 60 ∷ 0 ∷ [])
    ∷ (6 ∷ 0 ∷ 14 ∷ 6 ∷ 6 ∷ 102 ∷ 102 ∷ 60 ∷ [])
    ∷ (224 ∷ 96 ∷ 102 ∷ 108 ∷ 120 ∷ 108 ∷ 230 ∷ 0 ∷ [])
    ∷ (56 ∷ 24 ∷ 24 ∷ 24 ∷ 24 ∷ 24 ∷ 60 ∷ 0 ∷ [])
    ∷ (0 ∷ 0 ∷ 236 ∷ 254 ∷ 214 ∷ 214 ∷ 214 ∷ 0 ∷ [])
    ∷ (0 ∷ 0 ∷ 220 ∷ 102 ∷ 102 ∷ 102 ∷ 102 ∷ 0 ∷ [])
    ∷ (0 ∷ 0 ∷ 124 ∷ 198 ∷ 198 ∷ 198 ∷ 124 ∷ 0 ∷ [])
    ∷ (0 ∷ 0 ∷ 220 ∷ 102 ∷ 102 ∷ 124 ∷ 96 ∷ 240 ∷ [])
    ∷ (0 ∷ 0 ∷ 118 ∷ 204 ∷ 204 ∷ 124 ∷ 12 ∷ 30 ∷ [])
    ∷ (0 ∷ 0 ∷ 220 ∷ 118 ∷ 96 ∷ 96 ∷ 240 ∷ 0 ∷ [])
    ∷ (0 ∷ 0 ∷ 126 ∷ 192 ∷ 124 ∷ 6 ∷ 252 ∷ 0 ∷ [])
    ∷ (48 ∷ 48 ∷ 252 ∷ 48 ∷ 48 ∷ 54 ∷ 28 ∷ 0 ∷ [])
    ∷ (0 ∷ 0 ∷ 204 ∷ 204 ∷ 204 ∷ 204 ∷ 118 ∷ 0 ∷ [])
    ∷ (0 ∷ 0 ∷ 198 ∷ 198 ∷ 198 ∷ 108 ∷ 56 ∷ 0 ∷ [])
    ∷ (0 ∷ 0 ∷ 198 ∷ 214 ∷ 214 ∷ 254 ∷ 108 ∷ 0 ∷ [])
    ∷ (0 ∷ 0 ∷ 198 ∷ 108 ∷ 56 ∷ 108 ∷ 198 ∷ 0 ∷ [])
    ∷ (0 ∷ 0 ∷ 198 ∷ 198 ∷ 198 ∷ 126 ∷ 6 ∷ 252 ∷ [])
    ∷ (0 ∷ 0 ∷ 254 ∷ 140 ∷ 24 ∷ 98 ∷ 254 ∷ 0 ∷ [])
    ∷ (14 ∷ 24 ∷ 24 ∷ 112 ∷ 24 ∷ 24 ∷ 14 ∷ 0 ∷ [])
    ∷ (24 ∷ 24 ∷ 24 ∷ 24 ∷ 24 ∷ 24 ∷ 24 ∷ 0 ∷ [])
    ∷ (112 ∷ 24 ∷ 24 ∷ 14 ∷ 24 ∷ 24 ∷ 112 ∷ 0 ∷ [])
    ∷ (118 ∷ 220 ∷ 0 ∷ 0 ∷ 0 ∷ 0 ∷ 0 ∷ 0 ∷ [])
    ∷ []
