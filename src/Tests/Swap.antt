-- ===== src/Tests/Swap.antt =====
-- Runs in which a recipient comes after the approval.
use app_kaspa.Prelude.{false, length, List, ◌≡◌, inl, inr, refl, true, [], ◌∷◌, arith}
use app_kaspa.Sdk.Buffer.{plain_buffer, plain_buffer-BufferLaws}
use app_kaspa.Sdk.Write.{plain_write, plain_write-WriteLaws}
use app_kaspa.Sdk.Blake2b.{plain_blake2b, plain_blake2b-Blake2bLaws}
use app_kaspa.Context.{state_approved, confirm_transaction, GlobalCtx}
use app_kaspa.Transaction.Deserialize.{transaction_deserialize, transaction_input_deserialize}
use app_kaspa.Transaction.Validate.{tx_validate_parsed_transaction}
use app_kaspa.Transaction.Utils.{script_public_key_to_address, calc_fees, add_outputs}
use app_kaspa.Response.{status, sw_ok}
use app_kaspa.Sighash.{calc_sighash}
use app_kaspa.Hashing.{hash_init, hash_update, hash_finalize}
use app_kaspa.Crypto.{crypto_sign_transaction}
use app_kaspa.Display.{ui_display_transaction}
use app_kaspa.Actions.{decide, sign_input_and_send}
use app_kaspa.Handlers.SignTx.{start_transaction, parse_input, end_chunk, handler_sign_tx}
use app_kaspa.Dispatcher.{apdu_dispatcher}
use app_kaspa.Session.{Exchange, exchange, app_main, start_context}
use app_kaspa.Session.Keys.{next_signatures}
use app_kaspa.Session.Signatures.{input_signatures}
use app_kaspa.Session.Late.{with_late, late_output_signed}
use app_kaspa.Session.Honest.{sign_tx}
use app_kaspa.Tests.Fixture.{five_bytes, plain_amount}
use app_kaspa.Tests.Sessions.{header, output_bytes, device, device-Reliable}

-- The header declares an output and two inputs; the host marks the first input as the last part, and
-- the user accepts what is shown.
abbrev no_output_yet : List Exchange
no_output_yet = sign_tx true 8 0 0x80 header ∷ sign_tx true 8 2 0 five_bytes ∷ []

abbrev without_output : GlobalCtx
without_output = (app_main device no_output_yet (start_context device)).0

without_output-approved :
    (without_output.state ≡ state_approved)
    × (without_output.req_type ≡ confirm_transaction)
    × (length without_output.bip32_path ≡ 5)
    × (without_output.tx_info.parsing_output_index ≡ 0)
    × (without_output.tx_info.transaction.tx_output_len ≡ 1)
    × (without_output.tx_info.signing_input_index ≡ 1)
    × (without_output.tx_info.transaction.tx_input_len ≡ 2)
unfolding app_main exchange apdu_dispatcher handler_sign_tx start_transaction parse_input end_chunk
    transaction_deserialize transaction_input_deserialize tx_validate_parsed_transaction
    ui_display_transaction script_public_key_to_address calc_fees add_outputs plain_amount
    plain_buffer plain_write plain_blake2b decide sign_input_and_send crypto_sign_transaction
    calc_sighash hash_init hash_update hash_finalize
without_output-approved = (refl, refl, refl, refl, refl, refl, refl)

late_output_signed_example :
    let t = without_output.tx_info in
    (app_main device
      (sign_tx false 8 1 0x80 output_bytes ∷ next_signatures (9 ∷ []))
      without_output).1
    ≡ status sw_ok
      ∷ input_signatures device plain_blake2b-Blake2bLaws plain_write-WriteLaws
          (with_late output_bytes t)
          t.signing_input_index
          (9 ∷ [])
late_output_signed_example =
    let (approved, wanted, five, none_yet, declared, next, inputs) = without_output-approved in
    late_output_signed device plain_buffer-BufferLaws plain_blake2b-Blake2bLaws
      plain_write-WriteLaws device-Reliable no_output_yet false 8 (9 ∷ []) output_bytes
      (refl, (refl, tt)) approved wanted five (omega arith) (omega arith) (inr (inl (ground arith)))
      (omega arith) (omega arith) (omega arith)
