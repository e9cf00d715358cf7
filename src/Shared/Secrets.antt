-- ===== src/Shared/Secrets.antt =====
-- The way from a text to what is stored, and back.
use nestfleet.Prelude.{ℕ, List, [], ◌∷◌, ◌++◌, some, true, all, length, ◌≡◌, refl, ok}
use nestfleet.Shared.Hex.{
  Bytes, is_byte, to_hex, from_hex-to_hex, split, split-lacks, split-append, to_hex-lacks,
}
use nestfleet.Shared.Crypto.{
  Gcm, KeyEnv, resolve_key, encrypt_secret, decrypt_secret, stored, colon, iv_len,
}

module _ (iv ct tag : Bytes) (ivs : all is_byte iv ≡ true) (cts : all is_byte ct ≡ true)
    (tags : all is_byte tag ≡ true) where
  split-stored :
      split colon (to_hex iv ++ colon ∷ (to_hex ct ++ colon ∷ to_hex tag))
      ≡ to_hex iv ∷ to_hex ct ∷ to_hex tag ∷ []
  split-stored =
      rw
        (
          split-append colon (to_hex iv) (to_hex ct ++ colon ∷ to_hex tag) (to_hex-lacks iv ivs),
          split-append colon (to_hex ct) (to_hex tag) (to_hex-lacks ct cts),
          split-lacks colon (to_hex tag) (to_hex-lacks tag tags),
        )
        refl

-- Where the key resolves, the IV has twelve bytes, and the text survives UTF-8, what
-- `encrypt_secret` returns is decrypted to the text.
pub decrypt-encrypt :
    (gcm : Gcm) (env : KeyEnv) (key iv : Bytes) (plaintext : List ℕ)
    → resolve_key env ≡ ok key
    → length iv ≡ iv_len
    → all is_byte iv ≡ true
    → all is_byte (gcm.utf8 plaintext) ≡ true
    → gcm.of_utf8 (gcm.utf8 plaintext) ≡ plaintext
    → (secret : List ℕ) × (encrypt_secret gcm env iv plaintext ≡ ok secret)
      × (decrypt_secret gcm env (some secret) ≡ ok (some plaintext))
unfolding encrypt_secret decrypt_secret
decrypt-encrypt gcm env key iv plaintext k l ivs bytes back =
    let text = gcm.utf8 plaintext in
    let ct = (gcm.seal key iv text).0 in
    let tag = (gcm.seal key iv text).1 in
    let (cts, tags) = gcm.seal_bytes key iv text bytes in
    (
      stored iv ct tag,
      rw k refl,
      rw
          (
            k,
            split-stored iv ct tag ivs cts tags,
            from_hex-to_hex iv ivs,
            from_hex-to_hex ct cts,
            from_hex-to_hex tag tags,
            l,
            gcm.tag_length key iv text,
            gcm.open-seal key iv text,
            back,
          )
          refl,
    )
