-- ===== src/PersonalMessage.antt =====
-- personal_message.c. `none` is the result `false`; otherwise the result is the output array.
pub mod Digest
use app_kaspa.Prelude.{
  take, splice, none, ◌/◌, ◌%◌, ◌||◌, ◌==◌, ℕ, not, Option, List, [], ◌∷◌, ltb, if◌then◌else◌,
}
use app_kaspa.Sdk.Blake2b.{Blake2b}
use app_kaspa.Hashing.{◌>>=◌, guard, on_success}

-- "PersonalMessageSigningHash"
abbrev pub message_signing_key : List ℕ
message_signing_key =
    b'P' ∷ b'e' ∷ b'r' ∷ b's' ∷ b'o' ∷ b'n' ∷ b'a' ∷ b'l' ∷ b'M' ∷ b'e' ∷ b's' ∷ b's' ∷ b'a' ∷ b'g'
    ∷ b'e' ∷ b'S' ∷ b'i' ∷ b'g' ∷ b'n' ∷ b'i' ∷ b'n' ∷ b'g' ∷ b'H' ∷ b'a' ∷ b's' ∷ b'h' ∷ []

-- The file has its own three functions on hash states. The key is never null here.
module _ (b : Blake2b) where
  open b use {State, blake2b_init_key, blake2b_update, blake2b_final}

  hash_init : ℕ → List ℕ → ℕ → Option State
  hash_init size key key_len =
      if not (size % 8 == 0) || ltb size 8 || ltb 512 size
      then none
      else on_success (blake2b_init_key (size / 8) (take key_len key))

  hash_update : State → List ℕ → ℕ → Option State
  hash_update hash bytes len = on_success (blake2b_update hash (take len bytes))

  hash_finalize : State → List ℕ → ℕ → Option (List ℕ)
  hash_finalize hash out out_len =
      if ltb out_len 32
      then none
      else on_success (let (done, d) = blake2b_final hash 32 in (done, splice out 0 d))

unfoldable pub hash_personal_message : Blake2b → List ℕ → ℕ → List ℕ → ℕ → Option (List ℕ)
unfolding hash_init hash_update hash_finalize
hash_personal_message b message_bytes message_byte_len out_hash out_len =
    guard (not (ltb out_len 32)) (do
      hash ← hash_init b 256 message_signing_key 26
      hash' ← hash_update b hash message_bytes message_byte_len
      hash_finalize b hash' out_hash out_len)
