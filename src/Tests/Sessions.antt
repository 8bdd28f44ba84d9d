-- ===== src/Tests/Sessions.antt =====
-- A session that sends a transaction of one output and two inputs.
use app_kaspa.Prelude.{
  ℕ, ◌≡◌, refl, inl, true, false, List, [], ◌∷◌, ◌++◌, arith, replicate, be_value, be_bytes, splice,
  length-replicate,
}
use app_kaspa.Sdk.Platform.{Platform}
use app_kaspa.Sdk.Buffer.{plain_buffer-BufferLaws}
use app_kaspa.Sdk.Write.{plain_write-WriteLaws}
use app_kaspa.Sdk.Blake2b.{plain_blake2b-Blake2bLaws}
use app_kaspa.Context.{GlobalCtx}
use app_kaspa.Transaction.Utils.{calc_fees}
use app_kaspa.Display.{begin_review, review_transaction, kas, shown_address}
use app_kaspa.Session.{answer, exchange, app_main, start_context}
use app_kaspa.Session.Edges.{Reachable, Edge, exchanges_follow_edges}
use app_kaspa.Session.Chunks.{context_of}
use app_kaspa.Session.Honest.{sign_tx, first_commands}
use app_kaspa.Session.Runs.{accepted}
use app_kaspa.Session.Reviewed.{Sendable, Showable, at_review, transaction_reviewed}
use app_kaspa.Session.Keys.{Reliable, next_signatures}
use app_kaspa.Session.Signatures.{input_signatures}
use app_kaspa.Session.Whole.{session_signs}
use app_kaspa.Session.Message.{sign_message, message_digest, message_session_signs}
use app_kaspa.Handlers.Message.{MessageLayout}
use app_kaspa.Response.{sw_ok}
use app_kaspa.Tests.Fixture.{nano_s, test_crypto, plain_amount, five_bytes, before_input}

-- One output, two inputs, change 0/3 and the account 0.
abbrev pub header : List ℕ
header = 0 ∷ 1 ∷ 1 ∷ 2 ∷ 0 ∷ 0 ∷ 0 ∷ 0 ∷ 3 ∷ 0x80 ∷ 0 ∷ 0 ∷ 0 ∷ []

abbrev pub output_bytes : List ℕ
output_bytes = replicate 7 0 ++ 3 ∷ 0x20 ∷ replicate 32 7 ++ 0xac ∷ []

abbrev pub device : Platform
device = record nano_s {
  crypto = record test_crypto {
    cx_ecschnorr_sign_no_throw = λ random key hash. (0, replicate 64 random);
  };
}

pub device-Reliable : Reliable device.crypto
device-Reliable = record {
  derives = λ path. refl;
  pairs = λ key. refl;
  long_key = λ key. omega arith;
  signs = λ random key hash. refl;
  whole_signature = λ random key hash. length-replicate 64 random;
}

header-Sendable : Sendable 15 header (output_bytes ∷ []) (five_bytes ∷ []) five_bytes
unfolding be_value
header-Sendable = record {
  layout = record {
    whole = refl;
    some_outputs = omega arith;
    few_outputs = omega arith;
    some_inputs = omega arith;
    few_inputs = omega arith;
    known_type = omega arith;
    hardened = omega arith;
  };
  small = omega arith;
  all_outputs = refl;
  all_inputs = refl;
  output_layouts = ground arith;
  input_lengths = ground arith;
  last_length = refl;
}

abbrev built : GlobalCtx
built = context_of 15 header (output_bytes ∷ []) (five_bytes ∷ five_bytes ∷ [])

built-Showable :
    Showable device plain_buffer-BufferLaws built
      (replicate 7 0 ++ 3 ∷ [])
      (replicate 7 0 ++ 7 ∷ [])
unfolding be_value calc_fees plain_amount splice be_bytes
built-Showable = ((omega arith, omega arith, inl refl), refl, refl)

transaction_reviewed_example :
    let (g', sent) =
      app_main device
        (first_commands device plain_buffer-BufferLaws false 0 header
          (output_bytes ∷ [])
          (five_bytes ∷ []))
        before_input in
    (sent ≡ accepted 3)
    × (answer device 0 (sign_tx false 0 2 0 five_bytes).command g'
        ≡ begin_review (at_review device plain_buffer-BufferLaws built) (
            review_transaction
              (kas (replicate 7 0 ++ 3 ∷ []))
              (kas (replicate 7 0 ++ 7 ∷ []))
              (shown_address device built)))
transaction_reviewed_example =
    transaction_reviewed device plain_buffer-BufferLaws false 0 header (output_bytes ∷ [])
      (five_bytes ∷ []) five_bytes (replicate 7 0 ++ 3 ∷ []) (replicate 7 0 ++ 7 ∷ []) before_input
      header-Sendable built-Showable

session_signs_example :
    (app_main device
      (first_commands device plain_buffer-BufferLaws true 8 header
          (output_bytes ∷ [])
          (five_bytes ∷ [])
        ++ sign_tx true 8 2 0 five_bytes ∷ next_signatures (9 ∷ []))
      before_input).1
    ≡ accepted 3
      ++ input_signatures device plain_blake2b-Blake2bLaws plain_write-WriteLaws
          built.tx_info.transaction 0
          (8 ∷ 9 ∷ [])
session_signs_example =
    session_signs device plain_blake2b-Blake2bLaws plain_write-WriteLaws plain_buffer-BufferLaws
      device-Reliable 8 header (output_bytes ∷ []) (five_bytes ∷ []) five_bytes
      (replicate 7 0 ++ 3 ∷ []) (replicate 7 0 ++ 7 ∷ []) (9 ∷ []) before_input header-Sendable
      built-Showable refl

exchanges_follow_edges_example :
    let first =
      first_commands device plain_buffer-BufferLaws true 8 header
        (output_bytes ∷ [])
        (five_bytes ∷ []) in
    let g = (app_main device first (start_context device)).0 in
    let g' = (exchange device (sign_tx true 8 2 0 five_bytes) g).context in
    Reachable g.req_type g.state × Edge true g.req_type g.state g'.req_type g'.state
exchanges_follow_edges_example =
    exchanges_follow_edges device
      (first_commands device plain_buffer-BufferLaws true 8 header (output_bytes ∷ [])
        (five_bytes ∷ []))
      (sign_tx true 8 2 0 five_bytes)

-- Type 0, index 1, account 0 and the message "hi".
abbrev hi_bytes : List ℕ
hi_bytes = 0 ∷ 0 ∷ 0 ∷ 0 ∷ 1 ∷ 0x80 ∷ 0 ∷ 0 ∷ 0 ∷ 2 ∷ b'h' ∷ b'i' ∷ []

hi_bytes-Layout : MessageLayout 120 hi_bytes
unfolding be_value
hi_bytes-Layout = record {
  known_type = omega arith;
  hardened = omega arith;
  not_empty = omega arith;
  short = omega arith;
  whole = omega arith;
}

message_session_signs_example :
    (exchange device (sign_message 6 hi_bytes) before_input).sent
    ≡ record {
      bytes =
          64
          ∷ (replicate 64 6
              ++ 32
                ∷ message_digest device plain_buffer-BufferLaws plain_blake2b-Blake2bLaws
                    plain_write-WriteLaws hi_bytes);
      sw = sw_ok;
    }
      ∷ []
message_session_signs_example =
    message_session_signs device plain_buffer-BufferLaws plain_blake2b-Blake2bLaws
      plain_write-WriteLaws 6 hi_bytes (b'm' ∷ []) (replicate 64 6) before_input hi_bytes-Layout
      (omega arith) refl refl refl
