-- ===== src/Tests/Flows.antt =====
-- Runs of the touch screen's reviews, the debug command, the encoder's loops, the menus and refusals.
use app_kaspa.Prelude.{
  ◌+◌, ◌*◌, ◌<◌, ◌++◌, replicate, arith, be_value, ℕ, ◌≡◌, refl, true, some, List, [], ◌∷◌, length,
}
use app_kaspa.Sdk.Platform.{Platform}
use app_kaspa.Display.{ui_display_address, ui_display_transaction, ui_display_message}
use app_kaspa.Display.Nbgl.{nbgl_display_address, nbgl_display_transaction, nbgl_display_message}
use app_kaspa.Display.Nbgl.Alike.{Alike, nbgl_reviews-Alike}
use app_kaspa.Tests.Fixture.{nano_s, before_input, five_bytes}
use app_kaspa.Session.{Exchange, exchange, app_main}
use app_kaspa.Cashaddr.{create_checksum, emit}
use app_kaspa.Cashaddr.Checksum.{syndrome}
use app_kaspa.Cashaddr.Unique.{create_checksum_unique}
use app_kaspa.Prelude.{◌↔◌}
use app_kaspa.Cashaddr.Rounds.{emit_terminates}
use app_kaspa.Sdk.Buffer.{buffer_of, plain_buffer-BufferLaws}
use app_kaspa.Response.{sw_message_too_short}
use app_kaspa.Handlers.SignMsg.{handler_sign_msg}
use app_kaspa.Handlers.Refusals.{Verdict, handler_sign_msg-Verdict}
use app_kaspa.Prelude.{false}
use app_kaspa.Sdk.Buffer.{plain_buffer-PathLaws}
use app_kaspa.Response.{status, sw_ok}
use app_kaspa.Handlers.PublicKey.{handler_get_public_key}
use app_kaspa.Handlers.KeyRefusals
use app_kaspa.Handlers.KeyRefusals.{key_fault, handler_get_public_key-Verdict}
use app_kaspa.Handlers.SignTx.{handler_sign_tx}
use app_kaspa.Handlers.Chunks.{Takes, handler_sign_tx-Takes}
use app_kaspa.Prelude.{◌-◌, ◌%◌, if◌then◌else◌}
use app_kaspa.Display.Menu.{Paging, FlowLoop, Ux, right, both, ui_menu_main, press_all}
use app_kaspa.Display.Menu.Quit.{InMenu, CanQuit, ui_menu_main-CanQuit}
use app_kaspa.Tests.Runs.{key_bytes}
use app_kaspa.Session.Responses.{Small, exchange-Small}
use app_kaspa.Debug.{debug_exchange, debug_main}
use app_kaspa.Debug.Absent.{without_debug, debug_command_unseen}

-- The constants of the Stax.
abbrev stax : Platform
stax = record nano_s { max_input_count = 128; max_message_len = 200; message_buffer_len = 200 }

nbgl_reviews-Alike_example :
    Alike stax (nbgl_display_address stax before_input) (ui_display_address stax before_input)
    × Alike stax
        (nbgl_display_transaction stax before_input)
        (ui_display_transaction stax before_input)
    × Alike stax (nbgl_display_message stax before_input) (ui_display_message stax before_input)
nbgl_reviews-Alike_example = nbgl_reviews-Alike stax before_input refl

abbrev command : ℕ → ℕ → ℕ → List ℕ → Exchange
command ins p1 p2 bytes = record {
  command =
      some (record {
        cla = 0xe0;
        ins = ins;
        p1 = p1;
        p2 = p2;
        lc = length bytes;
        payload = some bytes;
      });
  choice = true;
  random = 0;
}

abbrev header : Exchange
header = command 6 0 0x80 (0 ∷ 1 ∷ 1 ∷ 1 ∷ 0 ∷ 0 ∷ 0 ∷ 0 ∷ 3 ∷ 0x80 ∷ 0 ∷ 0 ∷ 0 ∷ [])

abbrev debug : Exchange
debug = command 0xde 2 0 []

debug_command_unseen_example :
    debug_exchange nano_s
      (command 6 2 0 five_bytes)
      (debug_main nano_s (debug ∷ header ∷ debug ∷ []) before_input).0
    ≡ exchange nano_s
        (command 6 2 0 five_bytes)
        (app_main nano_s (without_debug (debug ∷ header ∷ debug ∷ [])) before_input).0
debug_command_unseen_example =
    debug_command_unseen nano_s (debug ∷ header ∷ debug ∷ []) (command 6 2 0 five_bytes)
      before_input refl

exchange-Small_example : Small (exchange nano_s (command 6 2 0 five_bytes) before_input).sent
exchange-Small_example = exchange-Small nano_s (omega arith) (command 6 2 0 five_bytes) before_input

create_checksum_unique_example :
    (syndrome (replicate 53 3 ++ replicate 8 1) ≡ 0)
    ↔ (replicate 8 1 ≡ create_checksum (replicate 53 3))
create_checksum_unique_example =
    create_checksum_unique (replicate 53 3) (replicate 8 1) refl (ground arith)

-- Two bytes give three digits and a bit.
emit_terminates_example :
    let (out, remaining) = emit 16 5 0xabcd 16 in
    (remaining < 5)
    × (length out * 5 + remaining ≡ 16)
    × (emit 40 5 0xabcd 16 ≡ emit 16 5 0xabcd 16)
emit_terminates_example = emit_terminates 5 0xabcd 16 40 (omega arith) (omega arith)

-- Type 0, index 1, account 0 and a message of no characters.
abbrev empty_message : List ℕ
empty_message = 0 ∷ 0 ∷ 0 ∷ 0 ∷ 1 ∷ 0x80 ∷ 0 ∷ 0 ∷ 0 ∷ 0 ∷ []

handler_sign_msg-Verdict_example :
    Verdict nano_s plain_buffer-BufferLaws empty_message
      (handler_sign_msg nano_s (buffer_of empty_message) before_input)
      (some sw_message_too_short)
unfolding be_value
handler_sign_msg-Verdict_example =
    handler_sign_msg-Verdict nano_s plain_buffer-BufferLaws empty_message before_input

handler_get_public_key-Verdict_example :
    KeyRefusals.Verdict nano_s plain_buffer-BufferLaws plain_buffer-PathLaws key_bytes false
      (handler_get_public_key nano_s (buffer_of key_bytes) false before_input)
      (key_fault key_bytes)
handler_get_public_key-Verdict_example =
    handler_get_public_key-Verdict nano_s plain_buffer-BufferLaws plain_buffer-PathLaws key_bytes
      false before_input

handler_sign_tx-Takes_example :
    ((handler_sign_tx nano_s 0 (buffer_of five_bytes) 2 true before_input).sent ≡ status sw_ok ∷ [])
    ↔ Takes nano_s plain_buffer-BufferLaws 2 five_bytes before_input
handler_sign_tx-Takes_example =
    handler_sign_tx-Takes nano_s plain_buffer-BufferLaws 0 2 five_bytes before_input (omega arith)

abbrev turned_on : Ux
turned_on = record { stack_count = 0; flow = []; position = 0; exited = false }

abbrev looping : Paging
looping forward n i = if forward then (i + 1) % n else (i + n - 1) % n

looping-FlowLoop : FlowLoop looping
looping-FlowLoop = record { next = λ n i h. refl; previous = λ n i h. refl }

-- To "About" and into the submenu.
ui_menu_main-CanQuit_example :
    let ux = press_all looping (right ∷ right ∷ both ∷ []) (ui_menu_main turned_on) in
    InMenu ux × CanQuit looping looping-FlowLoop ux
ui_menu_main-CanQuit_example =
    ui_menu_main-CanQuit looping looping-FlowLoop turned_on (right ∷ right ∷ both ∷ [])
