-- ===== src/Env/Values/Tests.antt =====
-- Runs of the parsers.
use bztsrc_osz.Prelude.{◌≤◌, ◌≡◌, refl, arith, some, [], ◌∷◌}
use bztsrc_osz.Env.{skip_blanks, hex_loop, dec_loop, limited, env_hex, env_dec}
use bztsrc_osz.Env.Values.{env_dec-Within}

-- "1500" with a maximum of 1440
env_dec-Within_example : (0 ≤ 1440) × (1440 ≤ 1440)
unfolding env_dec skip_blanks dec_loop limited
env_dec-Within_example =
    env_dec-Within (49 ∷ 53 ∷ 48 ∷ 48 ∷ []) [] 7 0 1440 1440 (omega arith) (omega arith) refl

-- "0x1" where the variable held 7: the value is 0x71.
hex_keeps : env_dec (48 ∷ 120 ∷ 49 ∷ []) 7 0 0 ≡ some ([], 0x71)
unfolding env_dec env_hex skip_blanks hex_loop limited
hex_keeps = refl
