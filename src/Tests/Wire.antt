-- ===== src/Tests/Wire.antt =====
-- Runs of the parsers and serializers.
use app_kaspa.Prelude.{
  ℕ, ◌≡◌, ◌↔◌, refl, inl, inr, some, List, [], ◌∷◌, ◌++◌, arith, take, replicate, splice, be_value,
}
use app_kaspa.Sdk.Buffer.{buffer_of, advance, plain_buffer, plain_buffer-BufferLaws}
use app_kaspa.Sdk.Write.{plain_write, plain_write-WriteLaws}
use app_kaspa.Transaction.{parsing_ok, zero_input, zero_output, zero_transaction}
use app_kaspa.Transaction.Deserialize.{
  transaction_deserialize, transaction_output_deserialize, transaction_input_deserialize,
}
use app_kaspa.Transaction.Deserialize.Header.{
  HeaderLayout, header_of, change_path, header_accepted, header_accepts_iff,
}
use app_kaspa.Transaction.Deserialize.Output.{OutputLayout, output_accepts_iff}
use app_kaspa.Transaction.Serialize.{
  transaction_serialize, transaction_input_serialize, transaction_output_serialize,
}
use app_kaspa.Transaction.Serialize.Layout.{header_wire, header_serialize-wire}
use app_kaspa.Transaction.RoundTrip.{
  IsInput, IsOutput, input_deserialize-serialize, output_deserialize-serialize,
}
use app_kaspa.Tests.Fixture.{five, three, schnorr_script, one_output}

abbrev three_bytes : List ℕ
three_bytes = replicate 7 0 ++ 3 ∷ take 34 schnorr_script

-- Version 1, one output, two inputs, change type 0, index 3, account 0.
abbrev header_bytes : List ℕ
header_bytes = 0 ∷ 1 ∷ 1 ∷ 2 ∷ 0 ∷ 0 ∷ 0 ∷ 0 ∷ 3 ∷ 0x80 ∷ 0 ∷ 0 ∷ 0 ∷ []

header_bytes-Layout : HeaderLayout 15 header_bytes
unfolding be_value
header_bytes-Layout = record {
  whole = refl;
  some_outputs = omega arith;
  few_outputs = omega arith;
  some_inputs = omega arith;
  few_inputs = omega arith;
  known_type = omega arith;
  hardened = omega arith;
}

three_bytes-Layout : OutputLayout three_bytes
three_bytes-Layout = inr (inl (refl, refl, refl))

header_accepted_example :
    transaction_deserialize plain_buffer 15
      (buffer_of header_bytes)
      (zero_transaction 15)
      (replicate 5 0)
    ≡ (
      parsing_ok,
      advance (buffer_of header_bytes) 13,
      header_of header_bytes (zero_transaction 15),
      change_path header_bytes (replicate 5 0),
    )
header_accepted_example =
    header_accepted plain_buffer plain_buffer-BufferLaws 15 header_bytes (zero_transaction 15)
      (replicate 5 0) header_bytes-Layout

header_accepts_iff_example :
    ((transaction_deserialize plain_buffer 15
        (buffer_of header_bytes)
        (zero_transaction 15)
        (replicate 5 0)).0
      ≡ parsing_ok)
    ↔ HeaderLayout 15 header_bytes
header_accepts_iff_example =
    header_accepts_iff plain_buffer plain_buffer-BufferLaws 15 header_bytes (zero_transaction 15)
      (replicate 5 0)

output_accepts_iff_example :
    ((transaction_output_deserialize plain_buffer (buffer_of three_bytes) zero_output).0
      ≡ parsing_ok)
    ↔ OutputLayout three_bytes
output_accepts_iff_example =
    output_accepts_iff plain_buffer plain_buffer-BufferLaws three_bytes zero_output

five-IsInput : IsInput five
five-IsInput = record {
  value_fits = omega arith;
  tx_id_length = refl;
  type_fits = omega arith;
  address_index_fits = omega arith;
  index_fits = omega arith;
}

three-IsOutput : IsOutput three
three-IsOutput = record {
  value_fits = omega arith;
  array_length = refl;
  known_script = inr (inl (refl, refl));
  padded = refl;
}

header_serialize-wire_example :
    transaction_serialize plain_write one_output (replicate 5 0) (replicate 13 1) 9
    ≡ (some 13, splice (replicate 13 1) 0 (header_wire one_output (replicate 5 0)))
header_serialize-wire_example =
    header_serialize-wire plain_write plain_write-WriteLaws one_output (replicate 5 0)
      (replicate 13 1) 9 (omega arith) (omega arith)

input_deserialize-serialize_example :
    let (n, out') = transaction_input_serialize plain_write five (replicate 46 1) 46 in
    (n ≡ some 46)
    × (transaction_input_deserialize plain_buffer (buffer_of (take 46 out')) zero_input
        ≡ (parsing_ok, advance (buffer_of (take 46 out')) 46, five))
input_deserialize-serialize_example =
    input_deserialize-serialize five five-IsInput plain_buffer plain_write zero_input
      (replicate 46 1) 46 plain_buffer-BufferLaws plain_write-WriteLaws refl (omega arith)
      (omega arith)

output_deserialize-serialize_example :
    let out' = (transaction_output_serialize plain_write three (replicate 43 1) 43).1 in
    ((transaction_output_serialize plain_write three (replicate 43 1) 43).0 ≡ some 42)
    × (transaction_output_deserialize plain_buffer (buffer_of (take 42 out')) zero_output
        ≡ (parsing_ok, advance (buffer_of (take 42 out')) 42, three))
output_deserialize-serialize_example =
    output_deserialize-serialize three three-IsOutput plain_buffer plain_write (replicate 43 1) 43
      plain_buffer-BufferLaws plain_write-WriteLaws (omega arith) (omega arith)
