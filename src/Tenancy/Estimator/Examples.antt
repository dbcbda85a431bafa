-- ===== src/Tenancy/Estimator/Examples.antt =====
-- Estimates of an ASCII text and of one with a Chinese character.
use i_doris.Prelude.{◌≤◌, ◌≡◌, refl, length, ◌++◌, [], ◌∷◌}
use i_doris.Prelude.Equality.{codes}
use i_doris.Tenancy.Estimator.{div_ceil, estimate_tokens, byte_length, estimate_tokens-bounds}

four_ascii : estimate_tokens (codes "abcd") ≡ 2
unfolding estimate_tokens
four_ascii = refl

estimate_tokens-bounds_example :
    (div_ceil (length (codes "ab" ++ 0x4e2d ∷ [])) 3 ≤ estimate_tokens (codes "ab" ++ 0x4e2d ∷ []))
    × (div_ceil (length (codes "ab" ++ 0x4e2d ∷ [])) 4
        ≤ estimate_tokens (codes "ab" ++ 0x4e2d ∷ []))
    × (estimate_tokens (codes "ab" ++ 0x4e2d ∷ []) ≤ byte_length (codes "ab" ++ 0x4e2d ∷ []))
estimate_tokens-bounds_example = estimate_tokens-bounds (codes "ab" ++ 0x4e2d ∷ [])
