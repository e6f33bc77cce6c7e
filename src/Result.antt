-- ===== src/Result.antt =====
-- The exceptions that src/*.cpp throws, as values; one constructor for each message.
pub data Error : Type 0 where
  unexpected_end : Error
  cannot_open : Error
  too_small : Error
  checksum_mismatch : Error
  bad_magic : Error
  unsupported_version : Error
  bloom_too_small : Error
  bloom_truncated : Error
  unknown_node : Error

pub data Result {ℓ} (T : Type ℓ) : Type ℓ where
  err : Error → Result T
  ok : T → Result T

infixl 5 ◌>>=◌
-- What stands behind a call is not run if the call throws.
abbrev pub ◌>>=◌ {ℓ κ} : {T : Type ℓ} {U : Type κ} → Result T → (T → Result U) → Result U
◌>>=◌ (err thrown) next = err thrown
◌>>=◌ (ok value) next = next value
