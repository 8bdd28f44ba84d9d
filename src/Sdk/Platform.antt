-- ===== src/Sdk/Platform.antt =====
-- What a build of the application stands on: the constants of the Makefile, the SDK and BLAKE2b.
use app_kaspa.Prelude.{ℕ, Option, List}
use app_kaspa.Sdk.Buffer.{BufferApi}
use app_kaspa.Sdk.Write.{WriteApi}
use app_kaspa.Sdk.Blake2b.{Blake2b}
use app_kaspa.Sdk.Crypto.{CryptoApi}

pub record Platform : Type 1 where
  -- 15 and 120 on the Nano S, 128 and 200 on the other devices.
  pub max_input_count : ℕ
  pub max_message_len : ℕ
  -- The size of `g_message`: `max_message_len + 6` with BAGL, `max_message_len` with NBGL.
  pub message_buffer_len : ℕ
  pub app_name : List ℕ
  pub major_version : ℕ
  pub minor_version : ℕ
  pub patch_version : ℕ
  pub buffer : BufferApi
  pub write : WriteApi
  pub blake2b : Blake2b
  pub crypto : CryptoApi
  -- The text of a path, and of a number with that many decimals; `none` where it does not fit.
  pub bip32_path_format : List ℕ → Option (List ℕ)
  pub format_fpu64_trimmed : ℕ → ℕ → Option (List ℕ)
