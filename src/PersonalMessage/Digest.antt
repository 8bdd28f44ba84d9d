-- ===== src/PersonalMessage/Digest.antt =====
-- The hash of a personal message.
use app_kaspa.Prelude.{
  ℕ, ◌≤◌, ◌≡◌, refl, ◌∙◌, not, ltb, some, List, [], arith, take, splice, le→ltb_false,
}
use app_kaspa.Sdk.Blake2b.{Blake2b, Blake2bLaws}
use app_kaspa.Hashing.Streams.{
  hash_init-Streams, hash_update-Streams, hash_finalize-Streams, then_stream,
}
use app_kaspa.Hashing
use app_kaspa.Hashing.{◌>>=◌, guard}
use app_kaspa.PersonalMessage.{message_signing_key, hash_personal_message}

-- The file's own functions on hash states have the text of those of sighash.c.
same_functions :
    (b : Blake2b) (message : List ℕ) (len : ℕ) (out : List ℕ) (out_len : ℕ)
    → hash_personal_message b message len out out_len
      ≡ guard (not (ltb out_len 32)) (do
        hash ← Hashing.hash_init b 256 message_signing_key 26
        hash' ← Hashing.hash_update b hash message len
        Hashing.hash_finalize b hash' out out_len)
unfolding hash_personal_message Hashing.hash_init Hashing.hash_update Hashing.hash_finalize
same_functions b message len out out_len = refl

-- `hash_personal_message` succeeds where the output has 32 bytes, and writes the hash of the first
-- `len` bytes under the key of personal messages.
pub hash_personal_message_lem :
    (b : Blake2b) (laws : Blake2bLaws b) (message : List ℕ) (len : ℕ) (out : List ℕ) (out_len : ℕ)
    → 32 ≤ out_len
    → hash_personal_message b message len out out_len
      ≡ some (splice out 0 (laws.digest 32 message_signing_key (take len message)))
hash_personal_message_lem b laws message len out out_len h =
    let key = message_signing_key in
    same_functions b message len out out_len
    ∙ rw (le→ltb_false out_len 32 h) (
        then_stream b laws key _ _ [] _
          (hash_init-Streams b laws key 256 key 26 refl refl (omega arith) (omega arith))
          λ s a.
            then_stream b laws key _ _ _ _ (hash_update-Streams b laws key s _ message len _ a refl)
              λ s' a'. hash_finalize-Streams b laws key s' _ out out_len a' h)
