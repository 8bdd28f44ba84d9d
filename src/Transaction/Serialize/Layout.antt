-- ===== src/Transaction/Serialize/Layout.antt =====
-- The bytes that the functions write.
use app_kaspa.Prelude.{
  ℕ, ◌+◌, ◌%◌, ◌≤◌, ◌≡◌, ◌∙◌, some, List, [], ◌∷◌, ◌++◌, append_assoc, arith, length, length-append,
  get_or, take, take_all, splice, length-splice, splice-append, set-splice, be_bytes,
  length-be_bytes, ◌==◌, if◌then◌else◌,
}
use app_kaspa.Sdk.Write.{WriteApi, WriteLaws, Writes}
use app_kaspa.Transaction.Types.{Transaction, TransactionInput, TransactionOutput}
use app_kaspa.Transaction.Serialize.{
  transaction_serialize, transaction_input_serialize, transaction_output_serialize,
}

abbrev pub header_wire : Transaction → List ℕ → List ℕ
header_wire tx path =
    be_bytes 2 tx.version
    ++ ((tx.tx_output_len % 256)
        ∷ (tx.tx_input_len % 256)
        ∷ (get_or path 3 0 % 256)
        ∷ (be_bytes 4 (get_or path 4 0) ++ be_bytes 4 (get_or path 2 0)))

abbrev pub input_wire : TransactionInput → List ℕ
input_wire txin =
    be_bytes 8 txin.value
    ++ (txin.tx_id ++ (txin.address_type ∷ (be_bytes 4 txin.address_index ++ txin.index ∷ [])))

abbrev pub script_len : List ℕ → ℕ
script_len script =
    if get_or script 0 0 == 0xaa then get_or script 1 0 + 3 else get_or script 0 0 + 2

abbrev pub output_wire : TransactionOutput → List ℕ
output_wire txout =
    be_bytes 8 txout.value ++ take (script_len txout.script_public_key) txout.script_public_key

-- A number written behind the bytes `a`.
write-behind :
    (n : ℕ) (bytes : ℕ → ℕ → List ℕ) (write : List ℕ → ℕ → ℕ → List ℕ)
    → Writes n bytes write
    → (out a : List ℕ) (m v : ℕ) → m ≡ length a
    → m + n ≤ length out
    → write (splice out 0 a) m v ≡ splice out 0 (a ++ bytes n v)
write-behind n bytes write law out a m v e h =
    law (splice out 0 a) m v (omega (arith, length-splice out 0 a))
    ∙ splice-append out 0 m a (bytes n v) (omega arith)

module _ (api : WriteApi) (laws : WriteLaws api) where
  -- With a stated length of 41 or more, within the array, an output is written as its value in 8
  -- bytes, big endian, and its script, whose length is three more than the second byte after a
  -- first byte 0xaa, and two more than the first byte otherwise. Of a longer result the array has
  -- the front.
  pub output_serialize-wire :
      (txout : TransactionOutput) (out : List ℕ) (out_len : ℕ)
      → 41 ≤ out_len
      → out_len ≤ length out
      → transaction_output_serialize api txout out out_len
        ≡ (some (8 + script_len txout.script_public_key), splice out 0 (output_wire txout))
  unfolding transaction_output_serialize
  output_serialize-wire txout out out_len h room = ground (
    arith,
    laws.u64_be out 0 txout.value,
    length-be_bytes 8 txout.value,
    splice-append out 0 8 (be_bytes 8 txout.value)
        (take (script_len txout.script_public_key) txout.script_public_key),
  )

  -- An input with an id of 32 bytes is 46 bytes: value, id, address type, address index and output
  -- index, big endian.
  pub input_serialize-wire :
      (txin : TransactionInput) (out : List ℕ) (out_len : ℕ)
      → length txin.tx_id ≡ 32
      → 46 ≤ out_len
      → out_len ≤ length out
      → transaction_input_serialize api txin out out_len ≡ (some 46, splice out 0 (input_wire txin))
  unfolding transaction_input_serialize
  input_serialize-wire txin out out_len i h room =
      let a₁ = be_bytes 8 txin.value in
      let a₂ = a₁ ++ txin.tx_id in
      let a₃ = a₂ ++ (txin.address_type ∷ []) in
      let a₄ = a₃ ++ be_bytes 4 txin.address_index in
      let l₁ : length a₁ ≡ 8 = length-be_bytes 8 txin.value in
      let l₂ : length a₂ ≡ 40 = omega (arith, length-append a₁ txin.tx_id) in
      let l₃ : length a₃ ≡ 41 = omega (arith, length-append a₂ (txin.address_type ∷ [])) in
      let l₄ : length a₄ ≡ 45 = omega (
        arith,
        length-append a₃ (be_bytes 4 txin.address_index),
        length-be_bytes 4 txin.address_index,
      ) in
      let flat : a₄ ++ txin.index ∷ [] ≡ input_wire txin = simp append_assoc in
      ground (
        arith,
        laws.u64_be out 0 txin.value,
        take_all 32 txin.tx_id,
        splice-append out 0 8 a₁ txin.tx_id,
        set-splice out 0 40 txin.address_type a₂,
        write-behind 4 be_bytes api.write_u32_be laws.u32_be out a₃ 41 txin.address_index,
        set-splice out 0 45 txin.index a₄,
        flat,
      )

  -- The header is 13 bytes, written already where the stated length is only 9, so the array needs
  -- 13: version, number of outputs, number of inputs, the fourth level of the path, the fifth and
  -- the third, big endian.
  pub header_serialize-wire :
      (tx : Transaction) (path out : List ℕ) (out_len : ℕ)
      → 9 ≤ out_len
      → 13 ≤ length out
      → transaction_serialize api tx path out out_len
        ≡ (some 13, splice out 0 (header_wire tx path))
  unfolding transaction_serialize
  header_serialize-wire tx path out out_len h room =
      let n_output = tx.tx_output_len % 256 in
      let n_input = tx.tx_input_len % 256 in
      let type = get_or path 3 0 % 256 in
      let a₁ = be_bytes 2 tx.version in
      let a₂ = a₁ ++ (n_output ∷ []) in
      let a₃ = a₂ ++ (n_input ∷ []) in
      let a₄ = a₃ ++ (type ∷ []) in
      let a₅ = a₄ ++ be_bytes 4 (get_or path 4 0) in
      let l₁ : length a₁ ≡ 2 = length-be_bytes 2 tx.version in
      let l₂ : length a₂ ≡ 3 = omega (arith, length-append a₁ (n_output ∷ [])) in
      let l₃ : length a₃ ≡ 4 = omega (arith, length-append a₂ (n_input ∷ [])) in
      let l₄ : length a₄ ≡ 5 = omega (arith, length-append a₃ (type ∷ [])) in
      let l₅ : length a₅ ≡ 9 = omega (
        arith,
        length-append a₄ (be_bytes 4 (get_or path 4 0)),
        length-be_bytes 4 (get_or path 4 0),
      ) in
      let flat : a₅ ++ be_bytes 4 (get_or path 2 0) ≡ header_wire tx path = simp append_assoc in
      ground (
        arith,
        laws.u16_be out 0 tx.version,
        set-splice out 0 2 n_output a₁,
        set-splice out 0 3 n_input a₂,
        set-splice out 0 4 type a₃,
        write-behind 4 be_bytes api.write_u32_be laws.u32_be out a₄ 5 (get_or path 4 0),
        write-behind 4 be_bytes api.write_u32_be laws.u32_be out a₅ 9 (get_or path 2 0),
        flat,
      )
