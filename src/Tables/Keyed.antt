-- ===== src/Tables/Keyed.antt =====
-- Tables of values by a text: SELECT, INSERT … ON CONFLICT DO UPDATE and DELETE by the key.
use Prim.Native.String.{String}
use text.Mathlib.Text.{◌==◌ as str_eq}
use text.Mathlib.TextEquality.{eq_iff}
use arkode.Prelude.{
  ◌≡◌, refl, ap, sym, ◌∙◌, Bool, true, false, List, [], ◌∷◌, Option, none, some, if◌then◌else◌,
}

-- A function with another value at one key.
abbrev pub update {ℓ} : {B : Type ℓ} → (String → B) → String → B → String → B
update f key b asked = if str_eq key asked then b else f asked

different :
    (name key asked : String)
    → str_eq name key ≡ false
    → str_eq key asked ≡ true
    → str_eq name asked ≡ true
    → true ≡ false
different name key asked e k n =
    let same : name ≡ key = (eq_iff name asked).0 n ∙ sym ((eq_iff key asked).0 k) in
    sym ((eq_iff name key).1 same) ∙ e

if_twice {ℓ} :
    {B : Type ℓ} (b : Bool) (x y z : B)
    → (if b then x else z) ≡ (if b then x else if b then y else z)
if_twice true x y z = refl
if_twice false x y z = refl

if_same {ℓ} : {B : Type ℓ} (b : Bool) (x : B) → x ≡ (if b then x else x)
if_same true x = refl
if_same false x = refl

module _ {A : Type 0} where
  unfoldable pub get_value : String → List (String × A) → Option A
  get_value key [] = none
  get_value key ((name, value) ∷ rest) =
      let later = get_value key rest in if str_eq name key then some value else later

  unfoldable pub put_value : String → A → List (String × A) → List (String × A)
  put_value key value [] = (key, value) ∷ []
  put_value key value ((name, old) ∷ rest) =
      let changed = put_value key value rest in
      if str_eq name key then (name, value) ∷ rest else (name, old) ∷ changed

  unfoldable pub delete_value : String → List (String × A) → List (String × A)
  delete_value key [] = []
  delete_value key ((name, old) ∷ rest) =
      let others = delete_value key rest in if str_eq name key then others else (name, old) ∷ others

  module _ (key : String) where
    -- Writing one key changes what is read at that key only.
    pub get_value-put_value :
        (value : A) (asked : String) (rows : List (String × A))
        → get_value asked (put_value key value rows)
          ≡ update (λ k. get_value k rows) key (some value) asked
    unfolding get_value put_value
    get_value-put_value value asked [] = refl
    get_value-put_value value asked ((name, old) ∷ rest) =
        by_name (get_value-put_value value asked rest) (str_eq name key) refl (str_eq name asked)
          refl (str_eq key asked) refl
      where
        by_name :
            get_value asked (put_value key value rest)
              ≡ (if str_eq key asked then some value else get_value asked rest)
            → (b : Bool) → str_eq name key ≡ b
            → (n : Bool) → str_eq name asked ≡ n
            → (k : Bool) → str_eq key asked ≡ k
            → get_value asked
                (if b then (name, value) ∷ rest else (name, old) ∷ put_value key value rest)
              ≡ (if k then some value else if n then some old else get_value asked rest)
        by_name later true e n name_is k key_is =
            let agree : k ≡ n =
              sym key_is ∙ ap (λ x. str_eq x asked) (sym ((eq_iff name key).0 e)) ∙ name_is in
            rw (name_is, agree) (if_twice n (some value) (some old) (get_value asked rest))
        by_name later false e true name_is true key_is =
            cc (different name key asked e key_is name_is)
        by_name later false e true name_is false key_is = rw name_is refl
        by_name later false e false name_is k key_is = rw name_is (later ∙ rw key_is refl)

    -- So does deleting it.
    pub get_value-delete_value :
        (asked : String) (rows : List (String × A))
        → get_value asked (delete_value key rows) ≡ update (λ k. get_value k rows) key none asked
    unfolding get_value delete_value
    get_value-delete_value asked [] = if_same (str_eq key asked) none
    get_value-delete_value asked ((name, old) ∷ rest) =
        by_name (get_value-delete_value asked rest) (str_eq name key) refl (str_eq name asked) refl
          (str_eq key asked) refl
      where
        by_name :
            get_value asked (delete_value key rest)
              ≡ (if str_eq key asked then none else get_value asked rest)
            → (b : Bool) → str_eq name key ≡ b
            → (n : Bool) → str_eq name asked ≡ n
            → (k : Bool) → str_eq key asked ≡ k
            → get_value asked
                (if b then delete_value key rest else (name, old) ∷ delete_value key rest)
              ≡ (if k then none else if n then some old else get_value asked rest)
        by_name later true e n name_is k key_is =
            let agree : k ≡ n =
              sym key_is ∙ ap (λ x. str_eq x asked) (sym ((eq_iff name key).0 e)) ∙ name_is in
            later ∙ rw (key_is, agree) (if_twice n none (some old) (get_value asked rest))
        by_name later false e true name_is true key_is =
            cc (different name key asked e key_is name_is)
        by_name later false e true name_is false key_is = rw name_is refl
        by_name later false e false name_is k key_is = rw name_is (later ∙ rw key_is refl)
