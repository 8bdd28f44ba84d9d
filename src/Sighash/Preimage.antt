-- ===== src/Sighash/Preimage.antt =====
-- The message that a signature of an input commits to, as the Kaspa protocol lays it out
-- (https://kaspa-mdbook.aspectron.com/transactions/sighashes.html), for SigHashAll.
use app_kaspa.Prelude.{
  ℕ, zero, suc, ◌≡◌, List, [], ◌∷◌, ◌++◌, length, take, replicate, le_bytes, All,
}
use app_kaspa.Transaction.{Transaction, TransactionInput, TransactionOutput}
use app_kaspa.Transaction.RoundTrip.{IsScript}
use app_kaspa.Transaction.Serialize.Layout.{script_len}

abbrev pub outpoint : TransactionInput → List ℕ
outpoint i = i.tx_id ++ le_bytes 4 i.index

abbrev pub outpoints : ℕ → List TransactionInput → List ℕ
outpoints zero inputs = []
outpoints (suc n) [] = []
outpoints (suc n) (i ∷ inputs) = outpoint i ++ outpoints n inputs

abbrev pub sequences : ℕ → List TransactionInput → List ℕ
sequences zero inputs = []
sequences (suc n) [] = []
sequences (suc n) (i ∷ inputs) = le_bytes 8 i.sequence ++ sequences n inputs

abbrev pub script_of : TransactionOutput → List ℕ
script_of o = take (script_len o.script_public_key) o.script_public_key

-- Script version 0.
abbrev pub output_bytes : TransactionOutput → List ℕ
output_bytes o =
    le_bytes 8 o.value
    ++ (replicate 2 0 ++ (le_bytes 8 (script_len o.script_public_key) ++ script_of o))

abbrev pub outputs : ℕ → List TransactionOutput → List ℕ
outputs zero outs = []
outputs (suc n) [] = []
outputs (suc n) (o ∷ outs) = output_bytes o ++ outputs n outs

-- One signature operation for each input. Lock time, subnetwork, gas and payload hash are zero.
-- `h` is the keyed hash of a part.
abbrev pub preimage : (List ℕ → List ℕ) → Transaction → TransactionInput → List ℕ → List ℕ
preimage h tx txin public_key =
    le_bytes 2 tx.version
    ++ (h (outpoints tx.tx_input_len tx.tx_inputs)
        ++ (h (sequences tx.tx_input_len tx.tx_inputs)
            ++ (h (replicate tx.tx_input_len 1)
                ++ (outpoint txin
                    ++ (replicate 2 0
                        ++ (le_bytes 8 34
                            ++ ((0x20 ∷ take 32 public_key ++ 0xac ∷ [])
                                ++ (le_bytes 8 txin.value
                                    ++ (le_bytes 8 txin.sequence
                                        ++ (1
                                            ∷ (h (outputs tx.tx_output_len tx.tx_outputs)
                                                ++ (replicate 8 0
                                                    ++ (replicate 20 0
                                                        ++ (replicate 8 0
                                                            ++ (replicate 32 0
                                                            ++ 1 ∷ [])))))))))))))))

-- The sizes of the arrays, and scripts of the three known forms in the outputs in use.
abbrev pub Ids : List TransactionInput → Type 0
Ids = All λ i. length i.tx_id ≡ 32

abbrev pub Scripts : ℕ → List TransactionOutput → Type 0
Scripts zero outs = Unit {0}
Scripts (suc n) [] = Unit {0}
Scripts (suc n) (o ∷ outs) = IsScript o.script_public_key × Scripts n outs
