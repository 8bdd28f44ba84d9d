-- ===== src/Session/Parsed.antt =====
-- What the parsed outputs, inputs and paths of a session are.
use app_kaspa.Prelude.{
  ℕ, zero, suc, ◌+◌, ◌<◌, ◌≤◌, ◌≡◌, refl, ap, ◌∙◌, List, [], ◌∷◌, ◌++◌, arith, All, length,
  length-drop, length-set, length-splice, get_or, set, drop, replicate, splice, splice-front,
}
use app_kaspa.Sdk.Crypto.{CryptoApi}
use app_kaspa.Transaction.{Transaction, TransactionOutput, zero_input, zero_output}
use app_kaspa.Transaction.RoundTrip.{IsScript}
use app_kaspa.Transaction.Deserialize.Output.{OutputLayout}
use app_kaspa.Sighash.Preimage.{Ids, Scripts}
use app_kaspa.Transaction.Validate.{tx_validate_parsed_transaction, force_path}
use app_kaspa.Session.Chunks.{output_of, input_from, parsed}

get_or-front :
    (src dst : List ℕ) (i : ℕ) → i < length src → get_or (src ++ dst) i 0 ≡ get_or src i 0
get_or-front [] dst i h = elim h [ ]
get_or-front (x ∷ src) dst zero h = refl
get_or-front (x ∷ src) dst (suc i) h = get_or-front src dst i (omega arith)

get_or-drop : (n : ℕ) (xs : List ℕ) (i : ℕ) → get_or (drop n xs) i 0 ≡ get_or xs (n + i) 0
get_or-drop zero xs i = ap (λ (k : ℕ). get_or xs k 0) (omega arith)
get_or-drop (suc n) [] i = refl
get_or-drop (suc n) (x ∷ xs) i =
    let e : suc (n + i) ≡ suc n + i = omega arith in
    get_or-drop n xs i ∙ ap (λ (k : ℕ). get_or (x ∷ xs) k 0) e

-- The script in its array, byte by byte.
script_byte :
    (bytes old : List ℕ) (i : ℕ)
    → 8 + i < length bytes
    → length bytes ≤ 8 + length old
    → get_or (splice old 0 (drop 8 bytes)) i 0 ≡ get_or bytes (8 + i) 0
script_byte bytes old i h few =
    let script = drop 8 bytes in
    let count = length-drop 8 bytes in
    ap (λ (s : List ℕ). get_or s i 0) (splice-front old script (omega (arith, count)))
    ∙ get_or-front script _ i (omega (arith, count))
    ∙ get_or-drop 8 bytes i

-- An accepted script, over an array of 40 bytes.
pub layout-IsScript :
    (bytes old : List ℕ)
    → length old ≡ 40
    → OutputLayout bytes
    → IsScript (splice old 0 (drop 8 bytes))
layout-IsScript bytes old room layout =
    let byte = script_byte bytes old in grind (arith, byte 0, byte 1, byte 33, byte 34)

pub parsed-Scripts :
    (n : ℕ) (outputs : List (List ℕ)) (rest : List TransactionOutput)
    → n ≤ length outputs
    → All OutputLayout outputs
    → Scripts n (parsed output_of outputs ++ rest)
parsed-Scripts zero outputs rest h layouts = tt
parsed-Scripts (suc n) [] rest h layouts = absurd (omega arith)
parsed-Scripts (suc n) (bytes ∷ outputs) rest h (layout, layouts) = (
  layout-IsScript bytes zero_output.script_public_key refl layout,
  parsed-Scripts n outputs rest (omega arith) layouts,
)

zero_inputs-Ids : (n : ℕ) → Ids (replicate n zero_input)
zero_inputs-Ids zero = tt
zero_inputs-Ids (suc n) = (refl, zero_inputs-Ids n)

pub parsed-Ids :
    (n : ℕ) (inputs : List (List ℕ)) → Ids (parsed input_from inputs ++ replicate n zero_input)
parsed-Ids n [] = zero_inputs-Ids n
parsed-Ids n (bytes ∷ inputs) = (length-splice (replicate 32 0) 0 _, parsed-Ids n inputs)

pub validate-path :
    (crypto : CryptoApi) (tx : Transaction) (path : List ℕ) (path_len : ℕ)
    → length (tx_validate_parsed_transaction crypto tx path path_len).1 ≡ length path
unfolding tx_validate_parsed_transaction
validate-path crypto tx path path_len =
    let forced : length (force_path path tx.account) ≡ length path =
      length-set (set (set path 0 0x8000002c) 1 0x8001b207) 2 tx.account
      ∙ length-set (set path 0 0x8000002c) 1 0x8001b207
      ∙ length-set path 0 0x8000002c in
    ground (arith, forced)
