-- ===== src/Ciphertext.antt =====
-- The layout that packages/pocket-shared/src/crypto.ts and packages/engine-core/src/vault/crypto.ts
-- share: a magic of 4 bytes, version 1, algorithm 1, a nonce of 12 bytes, the ciphertext and a tag
-- of 16 bytes.
use mathlib.Core.List.{append_assoc}
use native.Mathlib.Nat.{zero-add, add-zero, suc-add}
use arkode.Prelude.{
  ℕ, ◌+◌, ◌-◌, ◌≡◌, ◌<◌, refl, sym, ap, subst, List, [], ◌∷◌, ◌++◌, length, take, drop, All,
  length-append, All-append, arith,
}

abbrev pub IsByte : ℕ → Type 0
IsByte b = b < 256

pub record Sealed : Type 0 where
  pub ciphertext : List ℕ
  pub auth_tag : List ℕ

pub take-append : (xs ys : List ℕ) → take (length xs) (xs ++ ys) ≡ xs
take-append [] ys = refl
take-append (x ∷ xs) ys = ap (◌∷◌ x) (take-append xs ys)

pub drop-append : (xs ys : List ℕ) (n : ℕ) → drop (length xs + n) (xs ++ ys) ≡ drop n ys
drop-append [] ys n = rw zero-add refl
drop-append (x ∷ xs) ys n = rw suc-add (drop-append xs ys n)

take_exact : (n : ℕ) (xs ys : List ℕ) → length xs ≡ n → take n (xs ++ ys) ≡ xs
take_exact n xs ys e = subst (λ (m : ℕ). take m (xs ++ ys) ≡ xs) e (take-append xs ys)

drop_exact : (n : ℕ) (xs ys : List ℕ) → length xs ≡ n → drop n (xs ++ ys) ≡ ys
drop_exact n xs ys e =
    subst (λ (m : ℕ). drop m (xs ++ ys) ≡ ys) (rw add-zero e) (drop-append xs ys 0)

-- The blob, written out.
abbrev pub layout : List ℕ → List ℕ → Sealed → List ℕ
layout magic nonce sealed = magic ++ (1 ∷ 1 ∷ (nonce ++ (sealed.ciphertext ++ sealed.auth_tag)))

module _ (magic nonce : List ℕ) (sealed : Sealed) (hm : length magic ≡ 4) (hn : length nonce ≡ 12)
    (ht : length sealed.auth_tag ≡ 16) where
  abbrev body : List ℕ
  body = sealed.ciphertext ++ sealed.auth_tag

  pub length-layout : length (layout magic nonce sealed) ≡ 34 + length sealed.ciphertext
  length-layout = omega (
    arith,
    length-append magic (1 ∷ 1 ∷ (nonce ++ body)),
    length-append nonce body,
    length-append sealed.ciphertext sealed.auth_tag,
  )

  pub magic-layout : take 4 (layout magic nonce sealed) ≡ magic
  magic-layout = take_exact 4 magic (1 ∷ 1 ∷ (nonce ++ body)) hm

  header_length : length (magic ++ (1 ∷ 1 ∷ [])) ≡ 6
  header_length = omega (arith, length-append magic (1 ∷ 1 ∷ []))

  nonce_length : length (magic ++ (1 ∷ 1 ∷ nonce)) ≡ 18
  nonce_length = omega (arith, length-append magic (1 ∷ 1 ∷ nonce))

  pub nonce-layout : take 12 (drop 6 (layout magic nonce sealed)) ≡ nonce
  nonce-layout =
      rw
        (
          sym (append_assoc magic (1 ∷ 1 ∷ []) (nonce ++ body)),
          drop_exact 6 (magic ++ (1 ∷ 1 ∷ [])) (nonce ++ body) header_length,
        )
        (take_exact 12 nonce body hn)

  drop-layout : drop 18 (layout magic nonce sealed) ≡ body
  drop-layout =
      rw (sym (append_assoc magic (1 ∷ 1 ∷ nonce) body))
        (drop_exact 18 (magic ++ (1 ∷ 1 ∷ nonce)) body nonce_length)

  regroup :
      layout magic nonce sealed
      ≡ (magic ++ (1 ∷ 1 ∷ (nonce ++ sealed.ciphertext))) ++ sealed.auth_tag
  regroup =
      rw
        (
          append_assoc magic (1 ∷ 1 ∷ (nonce ++ sealed.ciphertext)) sealed.auth_tag,
          append_assoc nonce sealed.ciphertext sealed.auth_tag,
        )
        refl

  pub tag-layout :
      drop (length (layout magic nonce sealed) - 16) (layout magic nonce sealed) ≡ sealed.auth_tag
  tag-layout =
      let front = magic ++ (1 ∷ 1 ∷ (nonce ++ sealed.ciphertext)) in
      rw regroup
        (drop_exact _ front sealed.auth_tag (omega (arith, length-append front sealed.auth_tag)))

  pub ciphertext-layout :
      take (length (layout magic nonce sealed) - 16 - 18) (drop 18 (layout magic nonce sealed))
      ≡ sealed.ciphertext
  ciphertext-layout =
      rw drop-layout (take_exact _ sealed.ciphertext sealed.auth_tag (omega (arith, length-layout)))

  pub layout-IsByte :
      All IsByte magic
      → All IsByte nonce
      → All IsByte sealed.ciphertext
      → All IsByte sealed.auth_tag
      → All IsByte (layout magic nonce sealed)
  layout-IsByte bm bn bc bt = All-append IsByte magic (1 ∷ 1 ∷ (nonce ++ body)) bm (
    omega arith,
    (
      omega arith,
      All-append IsByte nonce body bn (All-append IsByte sealed.ciphertext sealed.auth_tag bc bt),
    ),
  )
