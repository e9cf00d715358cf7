-- ===== src/Examples/Shared.antt =====
-- The theorem on secrets, applied under a cipher that meets the laws.
use nestfleet.Shared.Crypto.{resolve_key}
use nestfleet.Prelude.{ℕ, zero, suc, List, [], ◌∷◌, ◌≡◌, refl, some, none, ok}
use nestfleet.Shared.Crypto.{Gcm, KeyEnv, encrypt_secret, decrypt_secret}
use nestfleet.Shared.Secrets.{decrypt-encrypt}
use nestfleet.Shared.Slugs.{
  is_slug_char, starts_plain, slugify, has_text, unique_slug, slugify-IsSlug,
}
use nestfleet.Shared.Uniqueness.{unique_slug-is_new}
use nestfleet.Prelude.{all, true, false, length, ◌≤◌}

abbrev pub repeated : ℕ → ℕ → List ℕ
repeated x zero = []
repeated x (suc n) = x ∷ repeated x n

-- It changes nothing, and its tag is zero.
abbrev pub clear : Gcm
clear = record {
  seal = λ key iv text. (text, repeated 0 16);
  open_sealed = λ key iv ct tag. some ct;
  utf8 = λ text. text;
  of_utf8 = λ bytes. bytes;
  open-seal = λ key iv text. refl;
  tag_length = λ key iv text. refl;
  seal_bytes = λ key iv text h. (h, refl);
}

abbrev pub keys : KeyEnv
keys = record { secret_encryption_key = none; encryption_key = some (repeated 97 64) }

decrypt-encrypt_example :
    (secret : List ℕ) × (encrypt_secret clear keys (repeated 7 12) (104 ∷ 105 ∷ []) ≡ ok secret)
    × (decrypt_secret clear keys (some secret) ≡ ok (some (104 ∷ 105 ∷ [])))
unfolding resolve_key
decrypt-encrypt_example =
    decrypt-encrypt clear keys (repeated 170 32) (repeated 7 12) (104 ∷ 105 ∷ []) refl refl refl
      refl refl

-- "Log In!" and the slugs of two others.
slugify-IsSlug_example :
    (all is_slug_char (slugify (λ s. s) (108 ∷ 111 ∷ 103 ∷ 32 ∷ 105 ∷ 110 ∷ 33 ∷ [])) ≡ true)
    × (starts_plain (slugify (λ s. s) (108 ∷ 111 ∷ 103 ∷ 32 ∷ 105 ∷ 110 ∷ 33 ∷ [])) ≡ true)
    × (length (slugify (λ s. s) (108 ∷ 111 ∷ 103 ∷ 32 ∷ 105 ∷ 110 ∷ 33 ∷ [])) ≤ 60)
slugify-IsSlug_example = slugify-IsSlug (λ s. s) (108 ∷ 111 ∷ 103 ∷ 32 ∷ 105 ∷ 110 ∷ 33 ∷ [])

abbrev slugs : List (List ℕ)
slugs = (97 ∷ []) ∷ (97 ∷ 45 ∷ 50 ∷ []) ∷ []

unique_slug-is_new_example : has_text (unique_slug (97 ∷ []) slugs) slugs ≡ false
unique_slug-is_new_example = unique_slug-is_new (97 ∷ []) slugs
