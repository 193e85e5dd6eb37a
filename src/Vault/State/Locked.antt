-- ===== src/Vault/State/Locked.antt =====
-- Locking by hand, and by the idle timer.
use arkode.Prelude.{◌≡◌, Bool, true, false, List, [], ◌∷◌, Option, none}
use arkode.Vault.Crypto.{NodeCrypto}
use arkode.Vault.AutoUnlock.{AutoUnlockDeps}
use arkode.Vault.Session.{VaultState, Call}
use arkode.Vault.State.Frame.{Operation, init_again, unlock_by, unlock_windows, perform}

-- Not an unlock that the user asks for, and not a new vault.
abbrev pub is_automatic : Operation → Bool
is_automatic (init_again password params) = false
is_automatic (unlock_by password enable) = false
is_automatic unlock_windows = false
is_automatic _ = true

abbrev pub IsLockedByHand : VaultState → Type 0
IsLockedByHand s = (s.dek ≡ none) × (s.manually_locked ≡ true)

module _ (crypto : NodeCrypto) (auto_unlock : Option AutoUnlockDeps) where
  pub run : List (Call × Operation) → VaultState → VaultState
  run [] s = s
  run ((call, operation) ∷ rest) s = run rest (perform crypto auto_unlock call operation s)
