-- ===== src/Connectors/Sealed.antt =====
-- The keys and the seals of crates/proxy-core/src/proxy/connector/shadowsocks.rs. The ciphers, MD5 and
-- HKDF are third-party code, and parameters.
use proxy_switcher.Common.{
  ℕ, zero, suc, ◌+◌, ◌/◌, ◌%◌, ◌^◌, true, false, not, Option, none, some, [], ◌∷◌, ◌++◌,
  if◌then◌else◌, ltb, ◌==◌, length, take,
}
use proxy_switcher.Common.Outcome.{Bytes}
use proxy_switcher.Common.Text.{Text, codes, equal, trim, lowercase}
use proxy_switcher.Common.Utf8.{as_bytes}
use proxy_switcher.Scraper.Build.{is_one_of}

pub data Cipher : Type 0 where
  chacha20_poly1305 aes_128_gcm aes_256_gcm : Cipher

abbrev pub cipher_named : Text → Option Cipher
cipher_named s =
    if is_one_of s
      (codes "chacha20-ietf-poly1305" ∷ codes "chacha20-poly1305" ∷ codes "chacha20" ∷ [])
    then some chacha20_poly1305
    else if equal s (codes "aes-128-gcm")
    then some aes_128_gcm
    else if equal s (codes "aes-256-gcm")
    then some aes_256_gcm
    else none

-- `Cipher::from_name`
unfoldable pub cipher_of_name : Text → Option Cipher
unfolding equal trim lowercase
cipher_of_name name = cipher_named (lowercase (trim name))

-- `Cipher::name`
abbrev pub cipher_name : Cipher → Text
cipher_name chacha20_poly1305 = codes "chacha20-ietf-poly1305"
cipher_name aes_128_gcm = codes "aes-128-gcm"
cipher_name aes_256_gcm = codes "aes-256-gcm"

-- `Cipher::key_len`
abbrev pub key_len : Cipher → ℕ
key_len chacha20_poly1305 = 32
key_len aes_128_gcm = 16
key_len aes_256_gcm = 32

-- The third-party code: a cipher with a key, a nonce and a message, the digest, and the expansion of a
-- salt and a master key to so many bytes.
pub record Crypto : Type 0 where
  pub encrypt : Cipher → Bytes → Bytes → Bytes → Option Bytes
  pub decrypt : Cipher → Bytes → Bytes → Bytes → Option Bytes
  pub md5 : Bytes → Bytes
  pub expand : Bytes → Bytes → ℕ → Option Bytes

-- `Seal`: the cipher with its key, and the counter.
pub record Seal : Type 0 where
  pub cipher : Cipher
  pub key : Bytes
  pub counter : ℕ

-- `Seal::new`
abbrev pub new_seal : Cipher → Bytes → Option Seal
new_seal cipher key =
    if not (length key == key_len cipher)
    then none
    else some (record { cipher = cipher; key = key; counter = 0 })

-- `to_le_bytes`
unfoldable pub le_bytes : ℕ → ℕ → Bytes
le_bytes zero n = []
le_bytes (suc k) n = (n % 256) ∷ le_bytes k (n / 256)

-- The nonce that `Seal::next` gives, and the counter behind it.
unfoldable pub nonce : ℕ → Bytes
unfolding le_bytes
nonce counter = le_bytes 8 counter ++ 0 ∷ 0 ∷ 0 ∷ 0 ∷ []

abbrev pub advanced : Seal → Seal
advanced s = record s { counter = (s.counter + 1) % 2 ^ 64 }

module _ (crypto : Crypto) where
  -- The loop of `master_key`.
  unfoldable pub derive : ℕ → Bytes → ℕ → Bytes → Bytes → Bytes
  derive zero password n previous key = key
  derive (suc fuel) password n previous key = elim (ltb (length key) n) [
    | false ↦ key
    | true ↦
        let digest = crypto.md5 (previous ++ password) in
        derive fuel password n digest (key ++ digest)
  ]

  -- `master_key`; every round of the loop adds to the key.
  unfoldable pub master_key : Text → ℕ → Bytes
  unfolding derive as_bytes
  master_key password n = take n (derive n (as_bytes password) n [] [])

  -- `session_key`
  abbrev pub session_key : Bytes → Bytes → ℕ → Option Bytes
  session_key master salt n = crypto.expand salt master n

  -- `Seal::seal`
  unfoldable pub seal : Seal → Bytes → Option Bytes × Seal
  unfolding nonce
  seal s plaintext = (crypto.encrypt s.cipher s.key (nonce s.counter) plaintext, advanced s)

  -- `Seal::open`
  unfoldable pub open_sealed : Seal → Bytes → Option Bytes × Seal
  unfolding nonce
  open_sealed s sealed = (crypto.decrypt s.cipher s.key (nonce s.counter) sealed, advanced s)
