-- ===== src/Dispatcher.antt =====
-- apdu/dispatcher.c and dispatcher.h, and the commands of types.h. The debug command is not in the
-- builds that the Makefile makes.
use app_kaspa.Prelude.{
  ℕ, Bool, true, false, not, ◌&&◌, ◌||◌, bit_and, Option, none, some, List, [], ltb, ◌==◌,
  if◌then◌else◌,
}
use app_kaspa.Sdk.Buffer.{Buffer}
use app_kaspa.Sdk.Platform.{Platform}
use app_kaspa.Context.{GlobalCtx}
use app_kaspa.Response.{
  sw_wrong_p1p2, sw_wrong_data_length, sw_ins_not_supported, sw_cla_not_supported,
}
use app_kaspa.Display.{Reply, reply_sw}
use app_kaspa.Handlers.SignTx.{handler_sign_tx}
use app_kaspa.Handlers.SignMsg.{handler_sign_msg}
use app_kaspa.Handlers.PublicKey.{handler_get_public_key, handler_get_version, handler_get_app_name}

-- `command_t` of the SDK's parser. Without data its pointer is null.
pub record Command : Type 0 where
  pub cla : ℕ
  pub ins : ℕ
  pub p1 : ℕ
  pub p2 : ℕ
  pub lc : ℕ
  pub payload : Option (List ℕ)

abbrev pub cla_kaspa : ℕ
cla_kaspa = 0xe0

abbrev pub p2_last : ℕ
p2_last = 0x00

abbrev pub p2_more : ℕ
p2_more = 0x80

abbrev pub has_payload : Command → Bool
has_payload cmd = elim cmd.payload [ none ↦ false | some bytes ↦ true ]

abbrev pub command_buffer : Command → Buffer
command_buffer cmd = record {
  ptr = elim cmd.payload [ none ↦ [] | some bytes ↦ bytes ];
  size = cmd.lc;
  offset = 0;
}

-- The P1 and P2 that SIGN_TX refuses.
abbrev pub wrong_sign_tx_parameters : Command → Bool
wrong_sign_tx_parameters cmd =
    (cmd.p1 == 0 && not (cmd.p2 == p2_more))
    || ((cmd.p1 == 1 && not (cmd.p2 == p2_more))
        || ((not (cmd.p1 == 0) && (not (cmd.p1 == 1) && (not (cmd.p1 == 2) && not (cmd.p1 == 3))))
            || (not (cmd.p2 == p2_last) && not (cmd.p2 == p2_more))))

module _ (p : Platform) where
  dispatch_sign_tx : ℕ → Command → GlobalCtx → Reply
  dispatch_sign_tx random cmd g =
      if wrong_sign_tx_parameters cmd
      then reply_sw g sw_wrong_p1p2
      else if not (has_payload cmd) && not (cmd.p1 == 3)
      then reply_sw g sw_wrong_data_length
      else handler_sign_tx p random (command_buffer cmd) cmd.p1 (not (bit_and cmd.p2 p2_more == 0))
          g

  dispatch_get_public_key : Command → GlobalCtx → Reply
  dispatch_get_public_key cmd g =
      if ltb 1 cmd.p1 || ltb 0 cmd.p2
      then reply_sw g sw_wrong_p1p2
      else if not (has_payload cmd)
      then reply_sw g sw_wrong_data_length
      else handler_get_public_key p (command_buffer cmd) (not (cmd.p1 == 0)) g

  -- `random` is the random number that a signature takes.
  unfoldable pub apdu_dispatcher : ℕ → Command → GlobalCtx → Reply
  unfolding dispatch_sign_tx dispatch_get_public_key
  apdu_dispatcher random cmd g =
      let plain = cmd.p1 == 0 && cmd.p2 == 0 in
      if not (cmd.cla == cla_kaspa)
      then reply_sw g sw_cla_not_supported
      else if cmd.ins == 0x03
      then (if plain then handler_get_version p g else reply_sw g sw_wrong_p1p2)
      else if cmd.ins == 0x04
      then (if plain then handler_get_app_name p g else reply_sw g sw_wrong_p1p2)
      else if cmd.ins == 0x05
      then dispatch_get_public_key cmd g
      else if cmd.ins == 0x06
      then dispatch_sign_tx random cmd g
      else if cmd.ins == 0x07
      then handler_sign_msg p (command_buffer cmd) g
      else reply_sw g sw_ins_not_supported
