-- ===== src/Sighash/Whole.antt =====
-- The hash that is signed.
use app_kaspa.Prelude.{
  ℕ, ◌≤◌, ◌≡◌, refl, sym, ap, ◌∙◌, Option, some, List, [], ◌∷◌, ◌++◌, append_assoc, arith, length,
  take, take_all, take-splice, length-take, length-append, set-splice, length-splice, replicate,
  set, splice, le_bytes, le→ltb_false,
}
use app_kaspa.Sdk.Blake2b.{Blake2b, Blake2bLaws}
use app_kaspa.Sdk.Write.{WriteApi, WriteLaws}
use app_kaspa.Hashing.{◌>>=◌, hash_update}
use app_kaspa.Hashing.Streams.{
  hash_init-Streams, hash_update-Streams, hash_finalize-Streams, then_stream,
}
use app_kaspa.Transaction.{Transaction, TransactionInput}
use app_kaspa.Sighash.{signing_key, zeros, calc_sighash}
use app_kaspa.Sighash.Preimage.{preimage, outpoints, sequences, outputs, Ids, Scripts}
use app_kaspa.Sighash.Parts.{
  u16_at_front, u32_at_front, u64_at_front, part_hash, calc_prev_outputs_hash_lem,
  calc_sequences_hash_lem, calc_sig_op_count_hash_lem, calc_outputs_hash_lem,
}

module _ (b : Blake2b) (laws : Blake2bLaws b) (w : WriteApi) (wl : WriteLaws w) where
  abbrev h : List ℕ → List ℕ
  h = part_hash b laws w wl

  -- A digest at the front of the buffer.
  digest_at_front : (m : List ℕ) → take 32 (splice (zeros 36) 0 (h m)) ≡ h m
  digest_at_front m =
      let l = laws.length-digest 32 signing_key m in
      take-splice (zeros 36) (h m) 32 (sym l) (omega arith)

  -- The script of the input: the key between its length and OP_CHECKSIG.
  txin_script :
      (public_key out : List ℕ)
      → 32 ≤ length public_key
      → length out ≡ 36
      → take 34 (set (splice (set out 0 0x20) 1 (take 32 public_key)) 33 0xac)
        ≡ 0x20 ∷ take 32 public_key ++ 0xac ∷ []
  unfolding splice
  txin_script public_key [] k e = absurd (omega arith)
  txin_script public_key (o ∷ rest) k e =
      let key = take 32 public_key in
      let l : length key ≡ 32 = omega (arith, length-take 32 public_key) in
      ap (◌∷◌ 0x20) (
        rw (set-splice rest 0 32 0xac key (omega arith)) (
          take-splice rest (key ++ 0xac ∷ []) 33 (omega (arith, length-append key (0xac ∷ [])))
            (omega arith)))

  step :
      {A : Type 0} (s : b.State) (m bytes : List ℕ) (len : ℕ) (d : List ℕ) (f : b.State → Option A)
      (x : A)
      → laws.Absorbed s 32 signing_key m
      → take len bytes ≡ d
      → ((s' : b.State) → laws.Absorbed s' 32 signing_key (m ++ d) → f s' ≡ some x)
      → (hash_update b s bytes len >>= f) ≡ some x
  step s m bytes len d f x a e k =
      then_stream b laws signing_key _ f (m ++ d) x
        (hash_update-Streams b laws signing_key s m bytes len d a e) k

  -- `calc_sighash` succeeds and writes, over the front of the output, the keyed hash of the
  -- message that the protocol lays out for SigHashAll, for ids of 32 bytes, outputs with one of
  -- the three scripts, a key of at least 32 bytes and room for 32.
  pub calc_sighash-preimage :
      (tx : Transaction) (txin : TransactionInput) (public_key out : List ℕ) (out_len : ℕ)
      → Ids tx.tx_inputs
      → length txin.tx_id ≡ 32
      → Scripts tx.tx_output_len tx.tx_outputs
      → 32 ≤ length public_key
      → 32 ≤ out_len
      → calc_sighash b w tx txin public_key out out_len
        ≡ some (splice out 0 (h (preimage h tx txin public_key)))
  unfolding calc_sighash
  calc_sighash-preimage tx txin public_key out out_len ids id scripts key room =
      let reads = txin_script public_key (w.write_u64_le (zeros 36) 0 34) key (
        omega (
          arith,
          ap length (wl.u64_le (zeros 36) 0 34 (omega arith)),
          length-splice (zeros 36) 0 (le_bytes 8 34),
        )) in
      rw
        (
          calc_prev_outputs_hash_lem b laws w wl tx (zeros 36) 36 ids (omega arith),
          calc_sequences_hash_lem b laws w wl tx (zeros 36) 36 (omega arith),
          calc_sig_op_count_hash_lem b laws w wl tx (zeros 36) 36 (omega arith),
          calc_outputs_hash_lem b laws w wl tx (zeros 36) 36 scripts (omega arith),
          le→ltb_false out_len 32 (omega arith),
        )
        (then_stream b laws signing_key _ _ [] _
          (hash_init-Streams b laws signing_key 256 signing_key 22 refl refl (omega arith)
            (omega arith))
          λ s₀ a₀.
            step s₀ _ _ 2 (le_bytes 2 tx.version) _ _ a₀
              (u16_at_front b laws w wl 36 tx.version (omega arith) refl)
              λ s₁ a₁.
                step s₁ _ _ 32 (h (outpoints tx.tx_input_len tx.tx_inputs)) _ _ a₁
                  (digest_at_front _)
                  λ s₂ a₂.
                    step s₂ _ _ 32 (h (sequences tx.tx_input_len tx.tx_inputs)) _ _ a₂
                      (digest_at_front _)
                      λ s₃ a₃.
                        step s₃ _ _ 32 (h (replicate tx.tx_input_len 1)) _ _ a₃ (digest_at_front _)
                          λ s₄ a₄.
                            step s₄ _ _ 32 txin.tx_id _ _ a₄ (take_all 32 txin.tx_id (omega arith))
                              λ s₅ a₅.
                                step s₅ _ _ 4 (le_bytes 4 txin.index) _ _ a₅
                                  (u32_at_front b laws w wl 36 txin.index (omega arith) refl)
                                  λ s₆ a₆. step s₆ _ _ 2 (replicate 2 0) _ _ a₆ refl λ s₇ a₇.
                                    step s₇ _ _ 8 (le_bytes 8 34) _ _ a₇
                                      (u64_at_front b laws w wl 36 34 (omega arith) refl)
                                      λ s₈ a₈. step s₈ _ _ 34 _ _ _ a₈ reads λ s₉ a₉.
                                        step s₉ _ _ 8 (le_bytes 8 txin.value) _ _ a₉
                                          (u64_at_front b laws w wl 36 txin.value (omega arith)
                                            refl)
                                          λ s₁₀ a₁₀.
                                            step s₁₀ _ _ 8 (le_bytes 8 txin.sequence) _ _ a₁₀
                                              (u64_at_front b laws w wl 36 txin.sequence
                                                (omega arith) refl)
                                              λ s₁₁ a₁₁.
                                                step s₁₁ _ _ 1 (1 ∷ []) _ _ a₁₁ refl λ s₁₂ a₁₂.
                                                  step s₁₂ _ _ 32
                                                    (h (outputs tx.tx_output_len tx.tx_outputs)) _ _
                                                    a₁₂ (digest_at_front _)
                                                    λ s₁₃ a₁₃.
                                                      step s₁₃ _ _ 8 (replicate 8 0) _ _ a₁₃ refl
                                                        λ s₁₄ a₁₄.
                                                          step s₁₄ _ _ 20 (replicate 20 0) _ _ a₁₄
                                                            refl
                                                            λ s₁₅ a₁₅.
                                                            step s₁₅ _ _ 8 (replicate 8 0) _ _ a₁₅
                                                            refl
                                                            λ s₁₆ a₁₆.
                                                            step s₁₆ _ _ 32 (replicate 32 0) _ _ a₁₆
                                                            refl
                                                            λ s₁₇ a₁₇.
                                                            step s₁₇ _ _ 1 (1 ∷ []) _ _ a₁₇ refl
                                                            λ s₁₈ a₁₈.
                                                            hash_finalize-Streams b laws signing_key
                                                            s₁₈ _ out out_len a₁₈ room
                                                            ∙ ap
                                                            (λ (m : List ℕ).
                                                            some (splice out 0 (h m)))
                                                            (simp append_assoc))
