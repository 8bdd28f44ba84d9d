-- ===== src/Sdk/Crypto.antt =====
-- crypto_helpers.h and cx.h of the SDK: keys and signatures. An error code is 0 for success; it is
-- kept as the 32 bits of the `int`. The application relies on no law of these functions.
use app_kaspa.Prelude.{ℕ, List}

pub record CryptoApi : Type 0 where
  -- The path to the error, the raw public key of 65 bytes and the chain code of 32.
  pub bip32_derive_get_pubkey_256 : List ℕ → ℕ × List ℕ × List ℕ
  -- The path to the error and the private key.
  pub bip32_derive_init_privkey_256 : List ℕ → ℕ × List ℕ
  -- The private key to the error and the public key, which begins with a format byte.
  pub cx_ecfp_generate_pair_no_throw : List ℕ → ℕ × List ℕ
  -- The random number of the call, the private key and the hash to the error and the signature.
  pub cx_ecschnorr_sign_no_throw : ℕ → List ℕ → List ℕ → ℕ × List ℕ
  -- The private key, the message and a buffer that begins with the random bytes to the buffer, which
  -- then holds the signature.
  pub cx_ecschnorr_sign : List ℕ → List ℕ → List ℕ → List ℕ
