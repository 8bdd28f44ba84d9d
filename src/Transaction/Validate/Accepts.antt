-- ===== src/Transaction/Validate/Accepts.antt =====
-- What tx_validate_parsed_transaction of transaction/tx_validate.c accepts.
use app_kaspa.Prelude.{
  ℕ, ◌%◌, ◌^◌, ◌≤◌, ◌≡◌, refl, ap₂, ◌↔◌, ◌⊎◌, inl, inr, Bool, true, false, not, ◌&&◌, ◌||◌, List,
  [], ◌∷◌, arith, ltb, ◌==◌, if◌then◌else◌, length, get_or, take, slice,
}
use app_kaspa.Sdk.Crypto.{CryptoApi}
use app_kaspa.Transaction.Types.{Transaction, zero_output}
use app_kaspa.Transaction.Utils.{add_inputs, add_outputs}
use app_kaspa.Transaction.Utils.Fees.{
  input_total, output_total, add_inputs-total, add_outputs-total,
}
use app_kaspa.Transaction.Validate.{
  memcmp_equal, crypto_validate_public_key, force_path, tx_validate_parsed_transaction,
}

memcmp_equal_sound : (xs ys : List ℕ) → memcmp_equal xs ys ≡ true → xs ≡ ys
memcmp_equal_sound [] [] h = refl
memcmp_equal_sound [] (y ∷ ys) h = ground arith
memcmp_equal_sound (x ∷ xs) [] h = ground arith
memcmp_equal_sound (x ∷ xs) (y ∷ ys) h =
    let tail : memcmp_equal xs ys ≡ true = ground arith in
    ap₂ ◌∷◌ (ground arith) (memcmp_equal_sound xs ys tail)

memcmp_equal_self : (xs : List ℕ) → memcmp_equal xs xs ≡ true
memcmp_equal_self [] = refl
memcmp_equal_self (x ∷ xs) = ground (arith, memcmp_equal_self xs)

-- A second output pays the Schnorr key of the path that the host named, under the account of the
-- transaction.
abbrev pub PaysOwnKey : CryptoApi → Transaction → List ℕ → Type 0
PaysOwnKey crypto tx path =
    let change = get_or tx.tx_outputs 1 zero_output in
    let (error, raw_pubkey, chain_code) =
      crypto.bip32_derive_get_pubkey_256 (take 5 (force_path path tx.account)) in
    (get_or change.script_public_key 0 0 ≡ 0x20)
    × (error ≡ 0)
    × (slice raw_pubkey 1 32 ≡ slice change.script_public_key 1 32)

abbrev pub Valid : CryptoApi → Transaction → List ℕ → Type 0
Valid crypto tx path =
    (1 ≤ tx.tx_input_len)
    × (output_total tx.tx_output_len tx.tx_outputs % 2 ^ 64
        ≤ input_total tx.tx_input_len tx.tx_inputs % 2 ^ 64)
    × ((tx.tx_output_len ≡ 1) ⊎ ((tx.tx_output_len ≡ 2) × PaysOwnKey crypto tx path))

own_key_sound :
    (crypto : CryptoApi) (path key : List ℕ)
    → crypto_validate_public_key crypto path key ≡ true
    → let (error, raw_pubkey, chain_code) = crypto.bip32_derive_get_pubkey_256 path in
      (error ≡ 0) × (slice raw_pubkey 1 32 ≡ key)
unfolding crypto_validate_public_key
own_key_sound crypto path key h =
    let same = memcmp_equal_sound (slice (crypto.bip32_derive_get_pubkey_256 path).1 1 32) key in
    (ground arith, same (ground arith))

own_key_complete :
    (crypto : CryptoApi) (path key : List ℕ)
    → (let (error, raw_pubkey, chain_code) = crypto.bip32_derive_get_pubkey_256 path in
        (error ≡ 0) × (slice raw_pubkey 1 32 ≡ key))
    → crypto_validate_public_key crypto path key ≡ true
unfolding crypto_validate_public_key
own_key_complete crypto path key (e, s) = rw (e, s) (memcmp_equal_self key)

-- The tests, on the numbers that they look at.
abbrev Checks : ℕ → ℕ → ℕ → ℕ → ℕ → Bool → Type 0
Checks outs ins first paid spent own =
    (1 ≤ ins) × (paid ≤ spent) × ((outs ≡ 1) ⊎ ((outs ≡ 2) × (first ≡ 0x20) × (own ≡ true)))

validation_iff :
    (outs ins first paid spent : ℕ) (own : Bool) (a b : List ℕ) (m n : ℕ)
    → let covered = not (ltb spent paid) in
      let result : Bool × List ℕ × ℕ =
        if ltb 2 outs || ltb outs 1
        then (false, a, m)
        else if ltb ins 1
        then (false, a, m)
        else if not (outs == 2)
        then (covered, a, m)
        else if not (first == 0x20)
        then (false, a, m)
        else (own && covered, b, n) in
      (result.0 ≡ true) ↔ Checks outs ins first paid spent own
validation_iff outs ins first paid spent own a b m n = ground arith

-- The tests of the code are those of the predicate.
pub validated_iff :
    (crypto : CryptoApi) (tx : Transaction) (path : List ℕ) (path_len : ℕ)
    → ((tx_validate_parsed_transaction crypto tx path path_len).0 ≡ true) ↔ Valid crypto tx path
unfolding tx_validate_parsed_transaction
validated_iff crypto tx path path_len =
    let ins = add_inputs-total tx.tx_input_len tx.tx_inputs 0 (omega arith) in
    let outs = add_outputs-total tx.tx_output_len tx.tx_outputs 0 (omega arith) in
    let change = get_or tx.tx_outputs 1 zero_output in
    let key = slice change.script_public_key 1 32 in
    let forced = take 5 (force_path path tx.account) in
    let first = get_or change.script_public_key 0 0 in
    let (sound, complete) =
      validation_iff tx.tx_output_len tx.tx_input_len first
        (add_outputs tx.tx_output_len tx.tx_outputs 0) (add_inputs tx.tx_input_len tx.tx_inputs 0)
        (crypto_validate_public_key crypto forced key) path (force_path path tx.account) path_len
        5 in
    (
      (λ h.
          let (i, c, o) = sound h in
          (
            i,
            omega arith,
            elim o [
              | inl e ↦ inl e
              | inr (e, f, g) ↦
                  let (k, k') = own_key_sound crypto forced key g in inr (e, (f, k, k'))
            ],
          )),
      λ (i, c, o). complete (
        i,
        omega arith,
        elim o [
          | inl e ↦ inl e
          | inr (e, (f, k, k')) ↦ inr (e, f, own_key_complete crypto forced key (k, k'))
        ],
      ),
    )

-- A transaction whose inputs are in their array passes validation exactly when it has an input, one or two outputs whose total (in
-- 64 bits) the inputs' total (in 64 bits) covers, and, if there are two outputs, a second one that
-- pays the Schnorr key which the device derives, without an error, for the path with its first three
-- levels forced.
pub tx_validate_accepts_iff :
    (crypto : CryptoApi) (tx : Transaction) (path : List ℕ) (path_len : ℕ)
    → tx.tx_input_len ≤ length tx.tx_inputs
    → ((tx_validate_parsed_transaction crypto tx path path_len).0 ≡ true) ↔ Valid crypto tx path
tx_validate_accepts_iff crypto tx path path_len inside = validated_iff crypto tx path path_len
