-- ===== src/Sighash/Parts.antt =====
-- The hashes of the parts.
use app_kaspa.Prelude.{
  ℕ, zero, suc, ◌≤◌, ◌≡◌, refl, sym, Option, some, List, [], ◌∷◌, ◌++◌, append_assoc, append-nil,
  arith, length, take, take_all, take-splice, replicate, set, splice, le_bytes, length-le_bytes,
}
use app_kaspa.Sdk.Blake2b.{Blake2b, Blake2bLaws}
use app_kaspa.Sdk.Write.{WriteApi, WriteLaws}
use app_kaspa.Hashing.{◌>>=◌, hash_init, hash_update, hash_finalize}
use app_kaspa.Hashing.Streams.{
  Streams, hash_init-Streams, hash_update-Streams, hash_finalize-Streams, then_stream,
}
use app_kaspa.Transaction.{Transaction, TransactionInput, TransactionOutput}
use app_kaspa.Transaction.RoundTrip.{IsScript}
use app_kaspa.Transaction.Serialize.Layout.{script_len}
use app_kaspa.Sighash.{
  signing_key, zeros, prev_outputs_loop, calc_prev_outputs_hash, sequences_loop,
  calc_sequences_hash, sig_op_count_loop, calc_sig_op_count_hash, output_script_len, outputs_loop,
  calc_outputs_hash,
}
use app_kaspa.Sighash.Preimage.{outpoints, sequences, outputs, script_of, Ids, Scripts}

module _ (b : Blake2b) (laws : Blake2bLaws b) (w : WriteApi) (wl : WriteLaws w) where
  -- A number at the front of a cleared buffer.
  pub u16_at_front :
      (n v : ℕ)
      → 2 ≤ n
      → n ≡ length (zeros n)
      → take 2 (w.write_u16_le (zeros n) 0 v) ≡ le_bytes 2 v
  u16_at_front n v h e =
      rw (wl.u16_le (zeros n) 0 v (omega arith))
        (take-splice (zeros n) (le_bytes 2 v) 2 (sym (length-le_bytes 2 v)) (omega arith))

  pub u32_at_front :
      (n v : ℕ)
      → 4 ≤ n
      → n ≡ length (zeros n)
      → take 4 (w.write_u32_le (zeros n) 0 v) ≡ le_bytes 4 v
  u32_at_front n v h e =
      rw (wl.u32_le (zeros n) 0 v (omega arith))
        (take-splice (zeros n) (le_bytes 4 v) 4 (sym (length-le_bytes 4 v)) (omega arith))

  pub u64_at_front :
      (n v : ℕ)
      → 8 ≤ n
      → n ≡ length (zeros n)
      → take 8 (w.write_u64_le (zeros n) 0 v) ≡ le_bytes 8 v
  u64_at_front n v h e =
      rw (wl.u64_le (zeros n) 0 v (omega arith))
        (take-splice (zeros n) (le_bytes 8 v) 8 (sym (length-le_bytes 8 v)) (omega arith))

  abbrev Absorbed : b.State → List ℕ → Type 0
  Absorbed s m = laws.Absorbed s 32 signing_key m

  abbrev Str : Option b.State → List ℕ → Type 0
  Str = Streams b laws signing_key

  -- A step that absorbs bytes, in front of a computation that streams.
  extend :
      (r : Option b.State) (f : b.State → Option b.State) (m m' : List ℕ)
      → Str r m
      → ((s : b.State) → Absorbed s m → Str (f s) m')
      → Str (r >>= f) m'
  extend r f m m' (s, e, a) k = let (s', e', a') = k s a in (s', rw e e', a')

  absorb :
      (s : b.State) (m bytes : List ℕ) (len : ℕ) (d : List ℕ)
      → Absorbed s m
      → take len bytes ≡ d
      → Str (hash_update b s bytes len) (m ++ d)
  absorb = hash_update-Streams b laws signing_key

  prev_outputs_loop-Streams :
      (n : ℕ) (inputs : List TransactionInput) (s : b.State) (m : List ℕ)
      → Ids inputs
      → Absorbed s m
      → Str (prev_outputs_loop b w n inputs s) (m ++ outpoints n inputs)
  unfolding prev_outputs_loop
  prev_outputs_loop-Streams zero inputs s m i a = (s, refl, rw append-nil a)
  prev_outputs_loop-Streams (suc n) [] s m i a = (s, refl, rw append-nil a)
  prev_outputs_loop-Streams (suc n) (x ∷ inputs) s m i a = simp append_assoc (
      extend _ _ _ _ (absorb s m x.tx_id 32 x.tx_id a (take_all 32 x.tx_id (omega arith))) λ s₁ a₁.
        extend _ _ _ _
          (absorb s₁ _ _ 4 (le_bytes 4 x.index) a₁ (u32_at_front 32 x.index (omega arith) refl))
          λ s₂ a₂. simp append_assoc at (prev_outputs_loop-Streams n inputs s₂ _ i.1 a₂))

  sequences_loop-Streams :
      (n : ℕ) (inputs : List TransactionInput) (s : b.State) (m : List ℕ)
      → Absorbed s m
      → Str (sequences_loop b w n inputs s) (m ++ sequences n inputs)
  unfolding sequences_loop
  sequences_loop-Streams zero inputs s m a = (s, refl, rw append-nil a)
  sequences_loop-Streams (suc n) [] s m a = (s, refl, rw append-nil a)
  sequences_loop-Streams (suc n) (x ∷ inputs) s m a =
      extend _ _ _ _
        (absorb s m _ 8 (le_bytes 8 x.sequence) a (u64_at_front 32 x.sequence (omega arith) refl))
        λ s₁ a₁. simp append_assoc at (sequences_loop-Streams n inputs s₁ _ a₁)

  sig_op_count_loop-Streams :
      (n : ℕ) (s : b.State) (m : List ℕ)
      → Absorbed s m
      → Str (sig_op_count_loop b w n s) (m ++ replicate n 1)
  unfolding sig_op_count_loop
  sig_op_count_loop-Streams zero s m a = (s, refl, rw append-nil a)
  sig_op_count_loop-Streams (suc n) s m a =
      extend _ _ _ _ (absorb s m (set (zeros 32) 0 1) 1 (1 ∷ []) a refl)
        λ s₁ a₁. simp append_assoc at (sig_op_count_loop-Streams n s₁ _ a₁)

  output_script_len-eq :
      (o : TransactionOutput)
      → IsScript o.script_public_key
      → output_script_len b w o ≡ script_len o.script_public_key
  unfolding output_script_len
  output_script_len-eq o h = ground arith

  outputs_loop-Streams :
      (n : ℕ) (outs : List TransactionOutput) (s : b.State) (m : List ℕ)
      → Scripts n outs
      → Absorbed s m
      → Str (outputs_loop b w n outs s) (m ++ outputs n outs)
  unfolding outputs_loop
  outputs_loop-Streams zero outs s m i a = (s, refl, rw append-nil a)
  outputs_loop-Streams (suc n) [] s m i a = (s, refl, rw append-nil a)
  outputs_loop-Streams (suc n) (o ∷ outs) s m i a =
      let k = output_script_len-eq o i.0 in
      let l = script_len o.script_public_key in
      simp append_assoc (
        extend _ _ _ _
          (absorb s m _ 8 (le_bytes 8 o.value) a (u64_at_front 32 o.value (omega arith) refl))
          λ s₁ a₁. extend _ _ _ _ (absorb s₁ _ (zeros 32) 2 (replicate 2 0) a₁ refl) λ s₂ a₂.
            extend _ _ _ _
              (absorb s₂ _ _ 8 (le_bytes 8 l) a₂ (rw k (u64_at_front 32 l (omega arith) refl)))
              λ s₃ a₃.
                extend _ _ _ _ (absorb s₃ _ _ _ (script_of o) a₃ (rw k))
                  λ s₄ a₄. simp append_assoc at (outputs_loop-Streams n outs s₄ _ i.1 a₄))

  -- The keyed hash of a message.
  abbrev pub part_hash : List ℕ → List ℕ
  part_hash = laws.digest 32 signing_key

  -- A hash of its own around a loop.
  hashed :
      (f : b.State → Option b.State) (m out : List ℕ) (out_len : ℕ)
      → ((s : b.State) → Absorbed s [] → Str (f s) m)
      → 32 ≤ out_len
      → (do
        hash ← hash_init b 256 signing_key 22
        hash' ← f hash
        hash_finalize b hash' out out_len)
        ≡ some (splice out 0 (part_hash m))
  hashed f m out out_len k h =
      let start =
        hash_init-Streams b laws signing_key 256 signing_key 22 refl refl (omega arith)
          (omega arith) in
      then_stream b laws signing_key _ _ [] _ start λ s a.
        then_stream b laws signing_key _ _ m _ (k s a)
          λ s' a'. hash_finalize-Streams b laws signing_key s' m out out_len a' h

  pub calc_prev_outputs_hash_lem :
      (tx : Transaction) (out : List ℕ) (out_len : ℕ)
      → Ids tx.tx_inputs
      → 32 ≤ out_len
      → calc_prev_outputs_hash b w tx out out_len
        ≡ some (splice out 0 (part_hash (outpoints tx.tx_input_len tx.tx_inputs)))
  unfolding calc_prev_outputs_hash
  calc_prev_outputs_hash_lem tx out out_len i h =
      hashed _ _ out out_len
        (λ s a. prev_outputs_loop-Streams tx.tx_input_len tx.tx_inputs s [] i a) h

  pub calc_sequences_hash_lem :
      (tx : Transaction) (out : List ℕ) (out_len : ℕ)
      → 32 ≤ out_len
      → calc_sequences_hash b w tx out out_len
        ≡ some (splice out 0 (part_hash (sequences tx.tx_input_len tx.tx_inputs)))
  unfolding calc_sequences_hash
  calc_sequences_hash_lem tx out out_len h =
      hashed _ _ out out_len (λ s a. sequences_loop-Streams tx.tx_input_len tx.tx_inputs s [] a) h

  pub calc_sig_op_count_hash_lem :
      (tx : Transaction) (out : List ℕ) (out_len : ℕ)
      → 32 ≤ out_len
      → calc_sig_op_count_hash b w tx out out_len
        ≡ some (splice out 0 (part_hash (replicate tx.tx_input_len 1)))
  unfolding calc_sig_op_count_hash
  calc_sig_op_count_hash_lem tx out out_len h =
      hashed _ _ out out_len (λ s a. sig_op_count_loop-Streams tx.tx_input_len s [] a) h

  pub calc_outputs_hash_lem :
      (tx : Transaction) (out : List ℕ) (out_len : ℕ)
      → Scripts tx.tx_output_len tx.tx_outputs
      → 32 ≤ out_len
      → calc_outputs_hash b w tx out out_len
        ≡ some (splice out 0 (part_hash (outputs tx.tx_output_len tx.tx_outputs)))
  unfolding calc_outputs_hash
  calc_outputs_hash_lem tx out out_len i h =
      hashed _ _ out out_len (λ s a. outputs_loop-Streams tx.tx_output_len tx.tx_outputs s [] i a) h
