-- ===== src/Connectors/Keys.antt =====
-- The keys of Shadowsocks have the length that is asked for, and no nonce is used twice.
use proxy_switcher.Common.{
  ℕ, zero, suc, ◌+◌, ◌*◌, ◌/◌, ◌%◌, ◌^◌, ◌≤◌, ◌<◌, ◌≡◌, inl, inr, ap, [], ◌∷◌, ◌++◌, arith, length,
  length-append, length-take, take, ltb, Bool-cases,
}
use proxy_switcher.Common.Outcome.{Bytes}
use proxy_switcher.Common.Text.{Text}
use proxy_switcher.Common.Utf8.{as_bytes}
use proxy_switcher.Connectors.Base.{byte}
use proxy_switcher.Connectors.Sealed.{Crypto, derive, master_key, le_bytes, nonce}

module _ (crypto : Crypto) where
  length-derive :
      (fuel : ℕ) (password : Bytes) (n : ℕ) (previous key : Bytes)
      → ((bytes : Bytes) → length (crypto.md5 bytes) ≡ 16)
      → n ≤ length key + fuel
      → n ≤ length (derive crypto fuel password n previous key)
  unfolding derive
  length-derive zero password n previous key digests h = omega (arith, h)
  length-derive (suc fuel) password n previous key digests h =
      elim (Bool-cases (ltb (length key) n)) [
        | inl e ↦
            let digest = crypto.md5 (previous ++ password) in
            let longer : n ≤ length (key ++ digest) + fuel =
              omega (arith, h, length-append key digest, digests (previous ++ password)) in
            rw (e, derive) (length-derive fuel password n digest (key ++ digest) digests longer)
        | inr e ↦ rw (e, derive) (ground (arith, e))
      ]

  -- The rounds of the loop are enough: with a digest of 16 bytes, the key that a password gives has
  -- the length that is asked for, whatever it is.
  pub length-master_key :
      (password : Text) (n : ℕ)
      → ((bytes : Bytes) → length (crypto.md5 bytes) ≡ 16)
      → length (master_key crypto password n) ≡ n
  unfolding master_key
  length-master_key password n digests =
      let long = length-derive n (as_bytes password) n [] [] digests (omega arith) in
      omega (arith, long, length-take n (derive crypto n (as_bytes password) n [] []))

-- The numbers that so many bytes can write.
abbrev bound : ℕ → ℕ
bound zero = 1
bound (suc k) = 256 * bound k

le_bytes_injective : (k i j : ℕ) → i < bound k → j < bound k → le_bytes k i ≡ le_bytes k j → i ≡ j
unfolding le_bytes
le_bytes_injective zero i j h l e = omega (arith, h, l)
le_bytes_injective (suc k) i j h l e =
    let low : i % 256 ≡ j % 256 = ap (λ bs. byte bs 0) e in
    let high : i / 256 ≡ j / 256 =
      le_bytes_injective k (i / 256) (j / 256) (omega (arith, h)) (omega (arith, l)) (ap tail e) in
    omega (arith, low, high)
  where
    tail : Bytes → Bytes
    tail [] = []
    tail (b ∷ bs) = bs

-- Two sealings under one key have one nonce only if they are the same sealing, for as long as the
-- counter has not gone through its 64 bits.
pub nonce_injective : (i j : ℕ) → i < 2 ^ 64 → j < 2 ^ 64 → nonce i ≡ nonce j → i ≡ j
unfolding nonce le_bytes
nonce_injective i j h l e = le_bytes_injective 8 i j h l (ap (take 8) e)
