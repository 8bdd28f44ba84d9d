-- ===== src/Tests/Consent.antt =====
-- Signatures, addresses and keys that the user has agreed to.
use app_kaspa.Prelude.{ℕ, some, false, ◌≡◌, refl, true, List, [], ◌∷◌, ◌++◌, arith, replicate, take}
use app_kaspa.Sdk.Buffer.{plain_buffer-BufferLaws}
use app_kaspa.Session.{Exchange}
use app_kaspa.Session.Covers.{Covers}
use app_kaspa.Session.Honest.{sign_tx, first_commands}
use app_kaspa.Sdk.Buffer.{buffer_of, plain_buffer}
use app_kaspa.Transaction.Validate.{tx_validate_parsed_transaction}
use app_kaspa.Transaction.Deserialize.{transaction_input_deserialize}
use app_kaspa.Transaction.Utils.{script_public_key_to_address, calc_fees, add_outputs}
use app_kaspa.Address.{schnorr, address_from_pubkey}
use app_kaspa.Response.{sw_ok}
use app_kaspa.Display.{
  review_pubkey, c_string, path_text, shown_address, ui_display_transaction, ui_display_address,
}
use app_kaspa.Display.Shown.{ReadsAs}
use app_kaspa.Actions.{decide}
use app_kaspa.Handlers.SignTx.{handler_sign_tx, parse_input, end_chunk}
use app_kaspa.Handlers.PublicKey.{written_length, handler_get_public_key}
use app_kaspa.Handlers.Key.{OwnKey}
use app_kaspa.Handlers.Shown.{review_shows_recipient, reviewed_key_sent}
use app_kaspa.Tests.Runs.{amount_text, fee_text, reviews_input, key_bytes}
use app_kaspa.Tests.Fixture.{nano_s, before_input, five_bytes, plain_amount}
use app_kaspa.Tests.Sessions.{header, output_bytes, device}

-- A transaction with two inputs, which the user accepts.
abbrev whole_transaction : List Exchange
whole_transaction =
    first_commands device plain_buffer-BufferLaws true 8 header (output_bytes ∷ [])
      (five_bytes ∷ [])
    ++ sign_tx true 8 2 0 five_bytes ∷ []

-- The script of the first output has a key of 32 bytes.
review_shows_recipient_example : ReadsAs (shown_address nano_s before_input) (0 ∷ replicate 32 7)
unfolding handler_sign_tx parse_input end_chunk tx_validate_parsed_transaction
    transaction_input_deserialize ui_display_transaction script_public_key_to_address calc_fees
    plain_amount plain_buffer add_outputs
review_shows_recipient_example =
    review_shows_recipient nano_s 0 (buffer_of five_bytes) 2 false before_input amount_text fee_text
      (shown_address nano_s before_input) (replicate 32 7) schnorr reviews_input refl (ground arith)
      (refl, refl)

abbrev key_text : List ℕ
key_text = c_string (address_from_pubkey (replicate 64 7) schnorr (replicate 69 0) 69).1

reviews_key :
    (handler_get_public_key nano_s (buffer_of key_bytes) true before_input).review
    ≡ some (review_pubkey (b'm' ∷ []) key_text)
unfolding handler_get_public_key written_length ui_display_address plain_buffer address_from_pubkey
reviews_key = refl

reviewed_key_sent_example :
    let r = handler_get_public_key nano_s (buffer_of key_bytes) true before_input in
    OwnKey nano_s r.context
    × (path_text nano_s r.context ≡ some (b'm' ∷ []))
    × ReadsAs key_text (0 ∷ take 32 r.context.pk_info.raw_public_key)
    × ((decide nano_s 0 true (review_pubkey (b'm' ∷ []) key_text) r.context).sent
        ≡ record {
          bytes =
              65
              ∷ 0x04
              ∷ (take 64 r.context.pk_info.raw_public_key
                  ++ 32 ∷ take 32 r.context.pk_info.chain_code);
          sw = sw_ok;
        }
          ∷ [])
reviewed_key_sent_example =
    reviewed_key_sent nano_s 0 (buffer_of key_bytes) true before_input (b'm' ∷ []) key_text
      (λ path. (refl, ground arith)) reviews_key
