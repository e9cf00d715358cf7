-- ===== src/Shared/Crypto.antt =====
-- src/shared/crypto.ts: `encryptSecret` and `decryptSecret`. A string is the list of its code units.
use nestfleet.Prelude.{
  ℕ, List, [], ◌∷◌, ◌++◌, Option, none, some, true, not, ◌||◌, nat_beq, all, length, if◌then◌else◌,
  ◌≡◌, Result, ok, err,
}
use nestfleet.Shared.Hex.{Bytes, is_byte, to_hex, from_hex, split, strip_prefix}

-- AES-256-GCM and UTF-8 as Node has them: what is sealed under a key and an IV opens again under
-- them, to the same bytes, and the tag has 16 bytes.
pub record Gcm : Type 0 where
  pub seal : Bytes → Bytes → Bytes → Bytes × Bytes
  pub open_sealed : Bytes → Bytes → Bytes → Bytes → Option Bytes
  pub utf8 : List ℕ → Bytes
  pub of_utf8 : Bytes → List ℕ
  pub open-seal :
      (key iv text : Bytes)
      → open_sealed key iv (seal key iv text).0 (seal key iv text).1 ≡ some text
  pub tag_length : (key iv text : Bytes) → length (seal key iv text).1 ≡ 16
  pub seal_bytes :
      (key iv text : Bytes)
      → all is_byte text ≡ true
      → (all is_byte (seal key iv text).0 ≡ true) × (all is_byte (seal key iv text).1 ≡ true)

pub data CryptoError : Type 0 where
  key_missing key_size malformed bad_lengths unauthentic : CryptoError

-- The two variables that may hold the key.
pub record KeyEnv : Type 0 where
  pub secret_encryption_key : Option (List ℕ)
  pub encryption_key : Option (List ℕ)

abbrev pub iv_len : ℕ
iv_len = 12

abbrev pub tag_len : ℕ
tag_len = 16

-- "enc:"
abbrev pub prefix : List ℕ
prefix = 101 ∷ 110 ∷ 99 ∷ 58 ∷ []

-- ":"
abbrev pub colon : ℕ
colon = 58

abbrev nonempty : Option (List ℕ) → Option (List ℕ)
nonempty (some (c ∷ cs)) = some (c ∷ cs)
nonempty _ = none

abbrev first_of : Option (List ℕ) → Option (List ℕ) → Option (List ℕ)
first_of none b = b
first_of (some a) b = some a

abbrev sized : Bytes → Result CryptoError Bytes
sized key = if nat_beq (length key) 32 then ok key else err key_size

abbrev key_of : Option (List ℕ) → Result CryptoError Bytes
key_of none = err key_missing
key_of (some hex) = sized (from_hex hex)

-- An empty variable counts as absent.
unfoldable pub resolve_key : KeyEnv → Result CryptoError Bytes
unfolding from_hex
resolve_key env =
    key_of (first_of (nonempty env.secret_encryption_key) (nonempty env.encryption_key))

abbrev and_then :
    {A B : Type 0} → Result CryptoError A → (A → Result CryptoError B) → Result CryptoError B
and_then (ok a) f = f a
and_then (err e) f = err e

abbrev pub stored : Bytes → Bytes → Bytes → List ℕ
stored iv ct tag = prefix ++ (to_hex iv ++ colon ∷ (to_hex ct ++ colon ∷ to_hex tag))

-- `iv` stands for `randomBytes(IV_LEN)`.
unfoldable pub encrypt_secret : Gcm → KeyEnv → Bytes → List ℕ → Result CryptoError (List ℕ)
unfolding resolve_key to_hex
encrypt_secret gcm env iv plaintext =
    and_then (resolve_key env)
      (λ key. let (ct, tag) = gcm.seal key iv (gcm.utf8 plaintext) in ok (stored iv ct tag))

abbrev authentic : Gcm → Option Bytes → Result CryptoError (Option (List ℕ))
authentic gcm none = err unauthentic
authentic gcm (some text) = ok (some (gcm.of_utf8 text))

abbrev open_parts : Gcm → Bytes → Bytes → Bytes → Bytes → Result CryptoError (Option (List ℕ))
open_parts gcm key iv ct tag =
    if not (nat_beq (length iv) iv_len) || not (nat_beq (length tag) tag_len)
    then err bad_lengths
    else authentic gcm (gcm.open_sealed key iv ct tag)

abbrev decrypt_parts : Gcm → Bytes → List (List ℕ) → Result CryptoError (Option (List ℕ))
decrypt_parts gcm key (iv ∷ ct ∷ tag ∷ []) =
    open_parts gcm key (from_hex iv) (from_hex ct) (from_hex tag)
decrypt_parts gcm key _ = err malformed

abbrev decrypt_inner :
    Gcm → KeyEnv → List ℕ → Option (List ℕ) → Result CryptoError (Option (List ℕ))
decrypt_inner gcm env text none = ok (some text)
decrypt_inner gcm env text (some inner) =
    and_then (resolve_key env) (λ key. decrypt_parts gcm key (split colon inner))

-- What does not begin with the prefix was stored before there was encryption.
unfoldable pub decrypt_secret :
    Gcm → KeyEnv → Option (List ℕ) → Result CryptoError (Option (List ℕ))
unfolding resolve_key split from_hex strip_prefix
decrypt_secret gcm env none = ok none
decrypt_secret gcm env (some text) = decrypt_inner gcm env text (strip_prefix prefix text)
