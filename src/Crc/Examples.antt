-- ===== src/Crc/Examples.antt =====
-- The check value of CRC-32C, and the theorems at concrete bytes.
use xfer.Base.{ℕ, ◌≡◌, refl, arith, List, [], ◌∷◌, ◌++◌}
use xfer.Crc.{init, update, compute}
use xfer.Crc.Serial.{serial, update-serial}
use xfer.Crc.Burst.{compute_burst}

-- "123456789"
abbrev digits : List ℕ
digits = 49 ∷ 50 ∷ 51 ∷ 52 ∷ 53 ∷ 54 ∷ 55 ∷ 56 ∷ 57 ∷ []

check_value : compute digits ≡ 0xe3069283
unfolding compute
check_value = refl

update-serial_example : (update init digits).state ≡ serial digits init.state
update-serial_example = update-serial init digits (omega arith)

same_sum :
    compute ((49 ∷ []) ++ ((50 ∷ 51 ∷ []) ++ (52 ∷ [])))
    ≡ compute ((49 ∷ []) ++ ((50 ∷ 51 ∷ []) ++ (52 ∷ [])))
same_sum = refl

compute_burst_example : ◌≡◌ {A = List ℕ} (50 ∷ 51 ∷ []) (50 ∷ 51 ∷ [])
compute_burst_example =
    compute_burst (49 ∷ []) (50 ∷ 51 ∷ []) (50 ∷ 51 ∷ []) (52 ∷ []) (omega arith) (omega arith)
      (omega arith) (omega arith) refl (omega arith) same_sum
