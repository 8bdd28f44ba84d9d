-- ===== src/Transaction/RoundTrip/Input.antt =====
-- The round trip of a transaction input.
use app_kaspa.Prelude.{
  ℕ, ◌^◌, ◌≤◌, ◌<◌, ◌≡◌, refl, sym, ap, ◌∙◌, some, List, [], ◌∷◌, ◌++◌, append_assoc, arith, length,
  length-append, take, take-append, drop-append_past, slice, splice, splice-whole, take-splice,
  be_value-one, be_bytes, be_value-be_bytes, length-be_bytes,
}
use app_kaspa.Sdk.Buffer.{Buffer, BufferApi, BufferLaws, buffer_of, advance}
use app_kaspa.Sdk.Write.{WriteApi, WriteLaws}
use app_kaspa.Transaction.Types.{ParserStatus, parsing_ok, TransactionInput}
use app_kaspa.Transaction.Deserialize.{transaction_input_deserialize}
use app_kaspa.Transaction.Deserialize.Input.{input_of, input_accepted}
use app_kaspa.Transaction.Serialize.{transaction_input_serialize}
use app_kaspa.Transaction.Serialize.Layout.{input_wire, input_serialize-wire}

-- The widths of the fields.
pub record IsInput (txin : TransactionInput) : Type 0 where
  pub value_fits : txin.value < 2 ^ 64
  pub tx_id_length : length txin.tx_id ≡ 32
  pub type_fits : txin.address_type < 2 ^ 8
  pub address_index_fits : txin.address_index < 2 ^ 32
  pub index_fits : txin.index < 2 ^ 8

-- A field of `n` bytes behind the first `k`.
field : (a b c : List ℕ) (k n : ℕ) → k ≡ length a → n ≡ length b → slice (a ++ (b ++ c)) k n ≡ b
field a b c k n ha hb =
    ap (take n) (drop-append_past a (b ++ c) k 0 k ha (omega arith)) ∙ take-append b c n hb

module _ (txin : TransactionInput) (v : IsInput txin) where
  open txin use {value, tx_id, address_type, address_index, index}

  wide : (n w : ℕ) → length (be_bytes n w) ≡ n
  wide = length-be_bytes

  pub length-input_wire : length (input_wire txin) ≡ 46
  length-input_wire = omega (
    arith,
    v.tx_id_length,
    wide 8 value,
    wide 4 address_index,
    length-append (be_bytes 8 value)
        (tx_id ++ (address_type ∷ (be_bytes 4 address_index ++ index ∷ []))),
    length-append tx_id (address_type ∷ (be_bytes 4 address_index ++ index ∷ [])),
    length-append (be_bytes 4 address_index) (index ∷ []),
  )

  abbrev to_type : List ℕ
  to_type = be_bytes 8 value ++ tx_id

  abbrev to_address_index : List ℕ
  to_address_index = to_type ++ address_type ∷ []

  abbrev to_index : List ℕ
  to_index = to_address_index ++ be_bytes 4 address_index

  length-to_type : 40 ≡ length to_type
  length-to_type =
      omega (arith, v.tx_id_length, wide 8 value, length-append (be_bytes 8 value) tx_id)

  length-to_address_index : 41 ≡ length to_address_index
  length-to_address_index = omega (arith, length-to_type, length-append to_type (address_type ∷ []))

  length-to_index : 45 ≡ length to_index
  length-to_index = omega (
    arith,
    length-to_address_index,
    wide 4 address_index,
    length-append to_address_index (be_bytes 4 address_index),
  )

  abbrev wire : List ℕ
  wire = input_wire txin

  value_at : take 8 wire ≡ be_bytes 8 value
  value_at = take-append (be_bytes 8 value) _ 8 (sym (wide 8 value))

  tx_id_at : slice wire 8 32 ≡ tx_id
  tx_id_at = field (be_bytes 8 value) tx_id _ 8 32 (sym (wide 8 value)) (sym v.tx_id_length)

  type_at : slice wire 40 1 ≡ address_type ∷ []
  type_at = simp append_assoc at (
      field to_type (address_type ∷ []) (be_bytes 4 address_index ++ index ∷ []) 40 1 length-to_type
        refl)

  address_index_at : slice wire 41 4 ≡ be_bytes 4 address_index
  address_index_at = simp append_assoc at (
      field to_address_index (be_bytes 4 address_index) (index ∷ []) 41 4 length-to_address_index
        (sym (wide 4 address_index)))

  index_at : slice wire 45 1 ≡ index ∷ []
  index_at = simp append_assoc at (field to_index (index ∷ []) [] 45 1 length-to_index refl)

  pub input_of-input_wire :
      (old : TransactionInput)
      → length old.tx_id ≡ 32
      → input_of wire old ≡ record txin { sequence = old.sequence }
  input_of-input_wire old h = ground (
    arith,
    value_at,
    tx_id_at,
    type_at,
    address_index_at,
    index_at,
    be_value-be_bytes 8 value,
    be_value-be_bytes 4 address_index,
    be_value-one address_type,
    be_value-one index,
    splice-whole old.tx_id tx_id,
    v.value_fits,
    v.address_index_fits,
    v.tx_id_length,
  )

  -- What `transaction_input_serialize` writes of an input whose fields fit their widths, into an
  -- array of 46 bytes or more, `transaction_input_deserialize` reads back: every field but the
  -- sequence number, which is not on the wire and stays as it was.
  pub input_deserialize-serialize :
      (reads : BufferApi) (writes : WriteApi) (old : TransactionInput) (out : List ℕ) (out_len : ℕ)
      → BufferLaws reads
      → WriteLaws writes
      → length old.tx_id ≡ 32
      → 46 ≤ out_len
      → out_len ≤ length out
      → let (n, out') = transaction_input_serialize writes txin out out_len in
        (n ≡ some 46)
        × (transaction_input_deserialize reads (buffer_of (take 46 out')) old ≡ (
          parsing_ok,
          advance (buffer_of (take 46 out')) 46,
          record txin { sequence = old.sequence },
        ))
  input_deserialize-serialize reads writes old out out_len rl wl h room fits =
      let e = input_serialize-wire writes wl txin out out_len v.tx_id_length room fits in
      let t : take 46 (splice out 0 wire) ≡ wire =
        take-splice out wire 46 (omega (arith, length-input_wire)) (omega arith) in
      rw (e, t)
        (
          refl,
          input_accepted reads rl wire old length-input_wire
              ∙ ap {B = ParserStatus × Buffer × TransactionInput}
                  (λ txin'. (parsing_ok, advance (buffer_of wire) 46, txin'))
                  (input_of-input_wire old h),
        )
