-- ===== src/Vault/State/History.antt =====
-- The lives of a vault: created with a password, then operations in any order, of which some change
-- the password.
use arkode.Prelude.{
  ℕ, ◌<◌, ◌≡◌, refl, ap, Bool, true, false, List, Option, none, some, ◌==◌, if◌then◌else◌, length,
}
use arkode.Prelude.Results.{Result, ok, err}
use arkode.Vault.Crypto.{vault_key_len, ScryptParams, NodeCrypto}
use arkode.Vault.Crypto.Wrapping.{IsCipher}
use arkode.Vault.AutoUnlock.{AutoUnlockDeps}
use arkode.Vault.Session.{
  VaultMeta, VaultState, Call, VaultError, wrong_master_password, empty_password, Done, apply_dek,
}
use arkode.Vault.State.{init, unlock, rewrap, store_new_row, change_password}
use arkode.Vault.State.Frame.{Operation, perform, perform-meta}
use arkode.Vault.State.Passwords.{
  IsDrawn, Holds, Holds-same, checked_dek-IsRowFor, init-Holds, change_password-Holds,
}

-- The password that was set last, the key that the vault was created with, and the state.
pub data History (crypto : NodeCrypto) (auto_unlock : Option AutoUnlockDeps)
    : List ℕ → List ℕ → VaultState → Type 0 where
  created :
      (call : Call) (password : List ℕ) (params : ScryptParams) (s : VaultState)
      → s.vault_meta ≡ none
      → 0 < length password
      → IsDrawn call
      → params.keylen ≡ vault_key_len
      → History crypto auto_unlock password call.fresh_dek
          (init crypto auto_unlock call password params s).1
  changed :
      (call : Call) (current new dek : List ℕ) (params : ScryptParams) (s : VaultState)
      → History crypto auto_unlock current dek s
      → 0 < length new
      → IsDrawn call
      → params.keylen ≡ vault_key_len
      → History crypto auto_unlock new dek
          (change_password crypto auto_unlock call current new params s).1
  refused :
      (call : Call) (password dek current new : List ℕ) (params : ScryptParams) (s : VaultState)
      (e : VaultError)
      → History crypto auto_unlock password dek s
      → (change_password crypto auto_unlock call current new params s).0 ≡ err e
      → History crypto auto_unlock password dek
          (change_password crypto auto_unlock call current new params s).1
  performed :
      (call : Call) (operation : Operation) (password dek : List ℕ) (s : VaultState)
      → History crypto auto_unlock password dek s
      → History crypto auto_unlock password dek (perform crypto auto_unlock call operation s)

module _ (crypto : NodeCrypto) (cipher : IsCipher crypto)
    (auto_unlock : Option AutoUnlockDeps) where
  store_new_row-refused :
      (call : Call) (password dek : List ℕ) (params : ScryptParams)
      (r : Result VaultError VaultMeta) (s : VaultState) {e : VaultError}
      → (store_new_row crypto auto_unlock call password params dek r s).0 ≡ err e
      → (store_new_row crypto auto_unlock call password params dek r s).1 ≡ s
  store_new_row-refused call password dek params (err error) s h = refl
  store_new_row-refused call password dek params (ok row) s h = cc

  rewrap-refused :
      (call : Call) (password : List ℕ) (params : ScryptParams) (r : Result VaultError (List ℕ))
      (s : VaultState) {e : VaultError}
      → (rewrap crypto auto_unlock call password params r s).0 ≡ err e
      → (rewrap crypto auto_unlock call password params r s).1 ≡ s
  rewrap-refused call password params (err error) s h = refl
  rewrap-refused call password params (ok dek) s h =
      store_new_row-refused call password dek params _ s h

  after_length :
      (b : Bool) (r : Done × VaultState) (s : VaultState) {e : VaultError}
      → (r.0 ≡ err e → r.1 ≡ s)
      → (if b then (err empty_password, s) else r).0 ≡ err e
      → (if b then (err empty_password, s) else r).1.vault_meta ≡ s.vault_meta
  after_length true r s same h = refl
  after_length false r s same h = ap (λ (x : VaultState). x.vault_meta) (same h)

  refused-meta :
      (call : Call) (current new : List ℕ) (params : ScryptParams) (s : VaultState) {e : VaultError}
      {row : VaultMeta}
      → s.vault_meta ≡ some row
      → (change_password crypto auto_unlock call current new params s).0 ≡ err e
      → (change_password crypto auto_unlock call current new params s).1.vault_meta ≡ s.vault_meta
  unfolding change_password
  refused-meta call current new params s {row = row} stored h = rw stored (
      after_length (length new == 0) _ (record s { vault_meta = some row })
        (rewrap-refused call new params _ (record s { vault_meta = some row })) (rw stored at h))

  pub History-Holds :
      (password dek : List ℕ) (s : VaultState)
      → History crypto auto_unlock password dek s
      → Holds crypto cipher auto_unlock password dek s
  History-Holds password dek s (created call _ params s0 empty filled drawn keylen) =
      init-Holds crypto cipher auto_unlock call password params s0 empty filled drawn keylen
  History-Holds password dek s (changed call current _ _ params s0 h filled drawn keylen) =
      change_password-Holds crypto cipher auto_unlock call current password dek params s0
        (History-Holds current dek s0 h) filled drawn keylen
  History-Holds password dek s (refused call _ _ current new params s0 e h refusal) =
      let held = History-Holds password dek s0 h in
      Holds-same crypto cipher auto_unlock s0
        (change_password crypto auto_unlock call current new params s0).1
        (refused-meta call current new params s0 held.1 refusal) held
  History-Holds password dek s (performed call operation _ _ s0 h) =
      let held = History-Holds password dek s0 h in
      Holds-same crypto cipher auto_unlock s0 (perform crypto auto_unlock call operation s0)
        (perform-meta crypto auto_unlock call operation s0 held.1) held

-- The password that was set last opens the vault, and the key in memory is the one that the vault
-- was created with, whatever happened in between: unlocks, locks, idle timers, calls with the wrong
-- password, changes of the password that were refused, and operations on the key file, in any
-- order. scrypt and AES-256-GCM do what `IsCipher` says, and the random values have their lengths.
pub unlock-History :
    (crypto : NodeCrypto) (auto_unlock : Option AutoUnlockDeps) (password dek : List ℕ)
    (s : VaultState)
    → IsCipher crypto
    → History crypto auto_unlock password dek s
    → (call : Call) (enable : Bool)
    → ((unlock crypto auto_unlock call password enable s).0 ≡ ok tt)
      × ((unlock crypto auto_unlock call password enable s).1.dek ≡ some dek)
unfolding unlock apply_dek
unlock-History crypto auto_unlock password dek s cipher h call enable =
    let (row, stored, held) = History-Holds crypto cipher auto_unlock password dek s h in
    let opened =
      checked_dek-IsRowFor crypto cipher auto_unlock password dek row wrong_master_password held in
    (rw (stored, opened) refl, rw (stored, opened) refl)
