-- ===== src/Tests/Runs.antt =====
-- Runs of the handlers and of the loop.
use app_kaspa.Prelude.{
  ℕ, ◌-◌, ◌≡◌, refl, true, false, none, some, List, [], ◌∷◌, ◌++◌, arith, length, take, replicate,
  splice, be_value, ◌⊎◌,
}
use mathlib.Core.Option
use app_kaspa.Sdk.Buffer.{buffer_of, plain_buffer, plain_buffer-BufferLaws}
use app_kaspa.Context.{GlobalCtx}
use app_kaspa.Transaction.Utils.{add_outputs, calc_fees, script_public_key_to_address}
use app_kaspa.Transaction.Validate.{tx_validate_parsed_transaction}
use app_kaspa.Transaction.Deserialize.{transaction_input_deserialize}
use app_kaspa.Transaction.Utils.Fees.{ValuesFit, input_total, output_total}
use app_kaspa.Display.{ui_display_transaction, review_transaction, kas, shown_address}
use app_kaspa.Handlers.SignTx.{handler_sign_tx, parse_input, end_chunk}
use app_kaspa.Handlers.Review.{Reviews, handler_sign_tx-Reviews, review_shows_fee}
use app_kaspa.Context.{state_approved, confirm_transaction, zero_context}
use app_kaspa.Response.{sw_bad_state}
use app_kaspa.Display.{reply_sw, ui_display_message}
use app_kaspa.Crypto.{message_memory}
use app_kaspa.Format.{format_message_to_sign}
use app_kaspa.Format.Printable.{format_message_to_sign-Printable}
use app_kaspa.Handlers.SignMsg.{handler_sign_msg}
use app_kaspa.Handlers.Approved.{Signed, handler_sign_tx-Next}
use app_kaspa.Handlers.Message.{MessageLayout, message_context, handler_sign_msg-reviews}
use app_kaspa.Prelude.{inl, set, ◌+◌, length, splice}
use app_kaspa.Cashaddr.{convert_bits, create_checksum, cashaddr_encode}
use app_kaspa.Cashaddr.Text.{characters, cashaddr_encode-characters}
use app_kaspa.Dispatcher.{Command}
use app_kaspa.Session.{Exchange, exchange, app_main, start_context}
use app_kaspa.Session.Answers.{exchange_one_response}
use app_kaspa.Session.Sizes.{Bounded}
use app_kaspa.Session.Bounds.{app_main-Bounded}
use app_kaspa.Tests.Fixture.{plain_amount, nano_s, five_bytes, before_input, approved, spends_five}

-- SIGN_TX with P1 2 and P2 0: the last input.
abbrev input_command : Command
input_command = record { cla = 0xe0; ins = 6; p1 = 2; p2 = 0; lc = 46; payload = some five_bytes }

abbrev header_command : Command
header_command = record {
  cla = 0xe0;
  ins = 6;
  p1 = 0;
  p2 = 0x80;
  lc = 13;
  payload = some (0 ∷ 1 ∷ 1 ∷ 1 ∷ 0 ∷ 0 ∷ 0 ∷ 0 ∷ 3 ∷ 0x80 ∷ 0 ∷ 0 ∷ 0 ∷ []);
}

abbrev refused : Command → Exchange
refused cmd = record { command = some cmd; choice = false; random = 0 }

abbrev after_input : GlobalCtx
after_input = (handler_sign_tx nano_s 0 (buffer_of five_bytes) 2 false before_input).context

abbrev pub amount_text : List ℕ
amount_text = kas (replicate 7 0 ++ 3 ∷ [])

abbrev pub fee_text : List ℕ
fee_text = kas (replicate 7 0 ++ 2 ∷ [])

pub reviews_input :
    (handler_sign_tx nano_s 0 (buffer_of five_bytes) 2 false before_input).review
    ≡ some (review_transaction amount_text fee_text (shown_address nano_s before_input))
unfolding handler_sign_tx parse_input end_chunk tx_validate_parsed_transaction
    transaction_input_deserialize ui_display_transaction script_public_key_to_address calc_fees
    plain_amount plain_buffer add_outputs
reviews_input = refl

after_input_fits :
    let tx = after_input.tx_info.transaction in
    ValuesFit tx.tx_outputs
    × (input_total tx.tx_input_len tx.tx_inputs ≡ 5)
    × (output_total tx.tx_output_len tx.tx_outputs ≡ 3)
unfolding handler_sign_tx parse_input end_chunk tx_validate_parsed_transaction
    transaction_input_deserialize ui_display_transaction script_public_key_to_address calc_fees
    plain_amount plain_buffer add_outputs
after_input_fits = ((omega arith, (omega arith, ground arith)), refl, refl)

handler_sign_tx-Reviews_example :
    Reviews nano_s before_input after_input amount_text fee_text (shown_address nano_s before_input)
handler_sign_tx-Reviews_example =
    handler_sign_tx-Reviews nano_s 0 (buffer_of five_bytes) 2 false before_input amount_text
      fee_text (shown_address nano_s before_input) reviews_input

review_shows_fee_example :
    let tx = after_input.tx_info.transaction in
    Option.map kas (
      nano_s.format_fpu64_trimmed
        (input_total tx.tx_input_len tx.tx_inputs - output_total tx.tx_output_len tx.tx_outputs)
        8)
    ≡ some fee_text
review_shows_fee_example =
    review_shows_fee nano_s 0 (buffer_of five_bytes) 2 false before_input amount_text fee_text
      (shown_address nano_s before_input) reviews_input after_input_fits.0
      (let (_, i, o) = after_input_fits in omega arith)
      (let (_, i, o) = after_input_fits in omega arith)

exchange_one_response_example :
    (length (exchange nano_s (refused header_command) (start_context nano_s)).sent ≡ 1)
    × ((exchange nano_s (refused header_command) (start_context nano_s)).review ≡ none)
exchange_one_response_example =
    exchange_one_response nano_s (refused header_command) (start_context nano_s)

app_main-Bounded_example :
    Bounded 15
      (app_main nano_s
        (refused header_command ∷ refused input_command ∷ [])
        (start_context nano_s)).0.tx_info
app_main-Bounded_example =
    app_main-Bounded nano_s (refused header_command ∷ refused input_command ∷ [])

handler_sign_tx-Next_example :
    ((approved.req_type ≡ confirm_transaction)
      × (approved.state ≡ state_approved)
      × Signed nano_s 0 approved (handler_sign_tx nano_s 0 (buffer_of []) 3 false approved))
    ⊎ (handler_sign_tx nano_s 0 (buffer_of []) 3 false approved
        ≡ reply_sw (zero_context 15) sw_bad_state)
handler_sign_tx-Next_example =
    handler_sign_tx-Next nano_s 0 (buffer_of []) false approved (omega arith)

-- Two inputs are declared, one has been sent, and the review is over.
abbrev one_to_come : GlobalCtx
one_to_come =
    let tx = record spends_five { tx_input_len = 2 } in
    let info = record approved.tx_info { transaction = tx; parsing_input_index = 1 } in
    record approved { tx_info = info }

-- Type 0, index 1, account 0 and the message "hi".
abbrev message_bytes : List ℕ
message_bytes = 0 ∷ 0 ∷ 0 ∷ 0 ∷ 1 ∷ 0x80 ∷ 0 ∷ 0 ∷ 0 ∷ 2 ∷ b'h' ∷ b'i' ∷ []

message_bytes-Layout : MessageLayout 120 message_bytes
unfolding be_value
message_bytes-Layout = record {
  known_type = omega arith;
  hardened = omega arith;
  not_empty = omega arith;
  short = omega arith;
  whole = omega arith;
}

handler_sign_msg-reviews_example :
    let g' = message_context nano_s plain_buffer-BufferLaws message_bytes in
    (handler_sign_msg nano_s (buffer_of message_bytes) before_input ≡ ui_display_message nano_s g')
    × (take 2 (message_memory g'.msg_info) ≡ b'h' ∷ b'i' ∷ [])
unfolding be_value
handler_sign_msg-reviews_example =
    handler_sign_msg-reviews nano_s plain_buffer-BufferLaws message_bytes before_input
      message_bytes-Layout (omega arith)

-- The path 44'/111111'.
abbrev pub key_bytes : List ℕ
key_bytes = 2 ∷ 0x80 ∷ 0 ∷ 0 ∷ 0x2c ∷ 0x80 ∷ 1 ∷ 0xb2 ∷ 0x07 ∷ []

format_message_to_sign-Printable_example :
    take 3 (format_message_to_sign (replicate 10 7) 10 (b'h' ∷ b'i' ∷ []) 2) ≡ b'h' ∷ b'i' ∷ 0 ∷ []
format_message_to_sign-Printable_example =
    format_message_to_sign-Printable (replicate 10 7) (b'h' ∷ b'i' ∷ []) 10 2
      ((omega arith, omega arith), ((omega arith, omega arith), ground arith)) (omega arith)
      (omega arith) (omega arith)

abbrev all_parsed : GlobalCtx
all_parsed =
    let info = record approved.tx_info { parsing_input_index = 1 } in
    record approved { tx_info = info }

-- The Schnorr address of a key.
cashaddr_encode-characters_example :
    (payload : List ℕ) × (convert_bits 5 (0 ∷ replicate 32 7) 8 true ≡ some payload)
    × (cashaddr_encode (replicate 33 7) 32 (replicate 74 0) 67 0 ≡ (
      length payload + 8,
      set
          (splice (replicate 74 0) 0 (characters (payload ++ create_checksum payload)))
          (length payload + 8)
          0,
    ))
cashaddr_encode-characters_example =
    cashaddr_encode-characters (replicate 33 7) 32 (replicate 74 0) 67 0 (inl refl) (ground arith)
      (omega arith) (omega arith)
