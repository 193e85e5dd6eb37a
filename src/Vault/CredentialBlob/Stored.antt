-- ===== src/Vault/CredentialBlob/Stored.antt =====
-- A secret that the normalisation lets through is read back unchanged.
use Prim.Native.String.{String}
use text.Mathlib.Text.{◌==◌ as str_eq}
use text.Mathlib.TextEquality.{eq_iff}
use arkode.Prelude.{
  ℕ, ◌≡◌, ◌≢◌, refl, ap, sym, subst, ◌∙◌, true, false, List, [], ◌∷◌, Option, none, some, or_else,
  All, length,
}
use arkode.Prelude.Results.{ok}
use arkode.Tables.Keyed.{update}
use arkode.Pocket.Json.{
  Json, null, boolean, number, string, array, object, Fields, no_fields, field, get, as_record,
  TextPlatform,
}
use arkode.Pocket.Payload.{Text}
use arkode.Pocket.Snapshot.{if_any}
use arkode.Pocket.Snapshot.Documents.{string?, object?, entries, secret_fields}
use arkode.Pocket.Snapshot.RoundTrip.{get-optional}
use arkode.Pocket.SyncFile.Published.{ReadsBack}
use arkode.Vault.Crypto.{vault_nonce_len, NodeCrypto}
use arkode.Vault.Crypto.Wrapping.{IsCipher}
use arkode.Vault.AutoUnlock.{AutoUnlockDeps}
use arkode.Vault.Session.{VaultState, Call}
use arkode.Vault.State.{unlock}
use arkode.Vault.State.History.{History}
use arkode.Vault.Secrets.{SecretTable}
use arkode.Vault.Secrets.Refines.{Stored, written, get_secret-refines}
use arkode.Vault.CredentialBlob.{
  VaultCredentialSecret, filled_text, filled_entries, filled_custom, normal_secret, unless_empty,
  normalize_credential_secret, write_credential_secret, read_credential_secret,
}

abbrev IsFilledText : Option Text → Type 0
IsFilledText o = o ≢ some []

abbrev AreFilled : List (String × Text) → Type 0
AreFilled = All (λ entry. entry.1 ≢ [])

abbrev IsFilledCustom : Option (List (String × Text)) → Type 0
IsFilledCustom none = Unit {0}
IsFilledCustom (some more) = (more ≢ []) × AreFilled more

record IsNormal (s : VaultCredentialSecret) : Type 0 where
  password : IsFilledText s.password
  token : IsFilledText s.token
  client_secret : IsFilledText s.client_secret
  private_key : IsFilledText s.private_key
  private_key_passphrase : IsFilledText s.private_key_passphrase
  custom : IsFilledCustom s.custom
  notes : IsFilledText s.notes

filled_text-filled : (v : Option Json) → IsFilledText (filled_text v)
filled_text-filled none e = cc
filled_text-filled (some null) e = cc
filled_text-filled (some (boolean b)) e = cc
filled_text-filled (some (number n)) e = cc
filled_text-filled (some (string [])) e = cc
filled_text-filled (some (string (c ∷ cs))) e = cc
filled_text-filled (some (array items)) e = cc
filled_text-filled (some (object entries_of)) e = cc

filled_entries-filled : (entries_of : Fields) → AreFilled (filled_entries entries_of)
filled_entries-filled no_fields = tt
filled_entries-filled (field key (string (c ∷ cs)) rest) = (λ e. cc, filled_entries-filled rest)
filled_entries-filled (field key (string []) rest) = filled_entries-filled rest
filled_entries-filled (field key null rest) = filled_entries-filled rest
filled_entries-filled (field key (boolean b) rest) = filled_entries-filled rest
filled_entries-filled (field key (number n) rest) = filled_entries-filled rest
filled_entries-filled (field key (array items) rest) = filled_entries-filled rest
filled_entries-filled (field key (object entries_of) rest) = filled_entries-filled rest

if_any-filled : (more : List (String × Text)) → AreFilled more → IsFilledCustom (if_any more)
if_any-filled [] h = tt
if_any-filled (entry ∷ more) h = (λ e. cc, h)

filled_custom-filled : (v : Option Json) → IsFilledCustom (filled_custom v)
filled_custom-filled none = tt
filled_custom-filled (some null) = tt
filled_custom-filled (some (boolean b)) = tt
filled_custom-filled (some (number n)) = tt
filled_custom-filled (some (string text)) = tt
filled_custom-filled (some (array items)) = tt
filled_custom-filled (some (object entries_of)) =
    if_any-filled (filled_entries entries_of) (filled_entries-filled entries_of)

filled_text-string? :
    (o : Option Text) → IsFilledText o → filled_text (or_else (string? o) none) ≡ o
filled_text-string? none h = refl
filled_text-string? (some []) h = absurd (h refl)
filled_text-string? (some (c ∷ cs)) h = refl

filled_entries-entries :
    (more : List (String × Text)) → AreFilled more → filled_entries (entries more) ≡ more
filled_entries-entries [] h = refl
filled_entries-entries ((key, []) ∷ more) h = absurd (h.0 refl)
filled_entries-entries ((key, c ∷ cs) ∷ more) h =
    ap (◌∷◌ (key, c ∷ cs)) (filled_entries-entries more h.1)

filled_custom-object? :
    (o : Option (List (String × Text)))
    → IsFilledCustom o
    → filled_custom (or_else (object? o) none) ≡ o
filled_custom-object? none h = refl
filled_custom-object? (some []) h = absurd (h.0 refl)
filled_custom-object? (some (entry ∷ more)) h =
    ap if_any (filled_entries-entries (entry ∷ more) h.1)

normal_secret-secret_fields :
    (s : VaultCredentialSecret) → IsNormal s → normal_secret (secret_fields s) ≡ s
normal_secret-secret_fields s h = simp (
  get-optional,
  filled_text-string? s.password h.password,
  filled_text-string? s.token h.token,
  filled_text-string? s.client_secret h.client_secret,
  filled_text-string? s.private_key h.private_key,
  filled_text-string? s.private_key_passphrase h.private_key_passphrase,
  filled_custom-object? s.custom h.custom,
  filled_text-string? s.notes h.notes,
)

normal_secret-IsNormal : (src : Fields) → IsNormal (normal_secret src)
normal_secret-IsNormal src = record {
  password = filled_text-filled _;
  token = filled_text-filled _;
  client_secret = filled_text-filled _;
  private_key = filled_text-filled _;
  private_key_passphrase = filled_text-filled _;
  custom = filled_custom-filled (get "custom" src);
  notes = filled_text-filled _;
}

some-eq : {A : Type 0} (a b : A) → some a ≡ some b → a ≡ b
some-eq a b e = cc

kept_secret :
    (left : Fields) (n s : VaultCredentialSecret)
    → (elim left [ no_fields ↦ none | field _ _ _ ↦ some n ]) ≡ some s
    → n ≡ s
kept_secret no_fields n s e = cc
kept_secret (field key json rest) n s e = some-eq n s e

-- What the normalisation answers is a fixed point of it.
normalized_again :
    (input : Json) (secret : VaultCredentialSecret)
    → normalize_credential_secret input ≡ some secret
    → normalize_credential_secret (object (secret_fields secret)) ≡ some secret
unfolding normalize_credential_secret
normalized_again input secret e = by_record (as_record input) e
  where
    by_record :
        (src : Option Fields)
        → (elim src [ none ↦ none | some fs ↦ unless_empty (normal_secret fs) ]) ≡ some secret
        → unless_empty (normal_secret (secret_fields secret)) ≡ some secret
    by_record none e = cc
    by_record (some fs) e =
        let same = kept_secret (secret_fields (normal_secret fs)) (normal_secret fs) secret e in
        rw (normal_secret-secret_fields secret (subst IsNormal same (normal_secret-IsNormal fs)))
          (subst (λ x. unless_empty x ≡ some x) same (e ∙ ap some (sym same)))

-- What a form sends for a credential is kept: the part of it that the normalisation lets through is
-- written encrypted, and after any operations on the vault it is read back as it was, once the vault
-- is unlocked with the last password. The session that writes holds the vault's key, the JSON text
-- of the secret is read as it was written, and scrypt and AES-256-GCM do what `IsCipher` says.
pub read-write_credential_secret :
    (platform : TextPlatform) (crypto : NodeCrypto) (auto_unlock : Option AutoUnlockDeps)
    (password dek : List ℕ) (s writer : VaultState) (table : SecretTable)
    (spec : String → Option (List ℕ))
    → IsCipher crypto
    → History crypto auto_unlock password dek s
    → Stored crypto auto_unlock dek table spec
    → (call now later : Call) (nonce : List ℕ) (ref : String) (input : Json)
      (secret : VaultCredentialSecret)
    → normalize_credential_secret input ≡ some secret
    → ReadsBack platform (object (secret_fields secret))
    → writer.dek ≡ some dek
    → length nonce ≡ vault_nonce_len
    → (read_credential_secret platform crypto auto_unlock later ref
        (unlock crypto auto_unlock now password false s).1
        (write_credential_secret platform crypto auto_unlock call nonce ref secret writer
          table).2).0
      ≡ ok secret
unfolding read_credential_secret write_credential_secret
read-write_credential_secret platform crypto auto_unlock password dek s writer table spec cipher h
      stored call now later nonce ref input secret normal reads opened hn =
    let text = platform.utf8_to_bytes (platform.stringify (object (secret_fields secret))) in
    let back =
      get_secret-refines crypto auto_unlock password dek s _ (update spec ref (some text)) cipher h
        (written call nonce ref text writer table spec stored opened hn) now later false ref in
    let here : str_eq ref ref ≡ true = (eq_iff ref ref).1 refl in
    rw (back, here, reads, normalized_again input secret normal) refl
