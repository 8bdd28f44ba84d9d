-- ===== src/Debug.antt =====
-- handler/debug.c, its command in types.h and its case of apdu/dispatcher.c: the builds with
-- HAVE_DEBUG_APDU, in which a command signs a test vector of BIP 340. The two functions of the
-- repository named `helper_send_response_sig` are different ones.
pub mod Absent
use app_kaspa.Prelude.{
  ℕ, ◌≡◌, refl, ap, ◌∙◌, Bool, true, false, not, ◌&&◌, inl, inr, Bool-cases, Option, none, some,
  List, [], ◌∷◌, ◌++◌, arith, ◌==◌, if◌then◌else◌, take, replicate, splice, be_bytes,
}
use app_kaspa.Sdk.Platform.{Platform}
use app_kaspa.Context.{GlobalCtx}
use app_kaspa.Response.{Response, sw_ok}
use app_kaspa.Display.{Reply}
use app_kaspa.Dispatcher.{Command, cla_kaspa, apdu_dispatcher}
use app_kaspa.Session.{Exchange, answer, conclude}

send_debug_signature : List ℕ → Response
send_debug_signature signature = record { bytes = 64 ∷ take 64 signature; sw = sw_ok }

abbrev debug_apdu : ℕ
debug_apdu = 0xde

abbrev pub is_debug : Command → Bool
is_debug cmd = cmd.cla == cla_kaspa && cmd.ins == debug_apdu

module _ (p : Platform) where
  open p use {crypto}
  open crypto use {cx_ecschnorr_sign}

  -- The end that the four test cases share: the random bytes over the front of the signature, the
  -- key into its structure, and the call.
  sign_test_case : List ℕ → List ℕ → List ℕ → List ℕ → List ℕ
  sign_test_case private_key_data aux_rand msg signature =
      cx_ecschnorr_sign private_key_data msg (splice signature 0 aux_rand)

  -- The arrays as the numbers that they spell.
  debug_test_case_1 : List ℕ → List ℕ
  unfolding sign_test_case
  debug_test_case_1 = sign_test_case (be_bytes 32 3) (replicate 32 0) (replicate 32 0)

  debug_test_case_2 : List ℕ → List ℕ
  unfolding sign_test_case
  debug_test_case_2 =
      sign_test_case
        (be_bytes 32 0xb7e151628aed2a6abf7158809cf4f3c762e7160f38b4da56a784d9045190cfef)
        (be_bytes 32 1)
        (be_bytes 32 0x243f6a8885a308d313198a2e03707344a4093822299f31d0082efa98ec4e6c89)

  debug_test_case_3 : List ℕ → List ℕ
  unfolding sign_test_case
  debug_test_case_3 =
      sign_test_case
        (be_bytes 32 0xc90fdaa22168c234c4c6628b80dc1cd129024e088a67cc74020bbea63b14e5c9)
        (be_bytes 32 0xc87aa53824b4d7ae2eb035a2b5bbbccc080e76cdc6d1692c4b0b62d798e6d906)
        (be_bytes 32 0x7e2d58d8b3bcdf1abadec7829054f90dda9805aab56c77333024b9d0a508b75c)

  debug_test_case_4 : List ℕ → List ℕ
  unfolding sign_test_case
  debug_test_case_4 =
      sign_test_case
        (be_bytes 32 0x0b432b2677937381aef05bb02a66ecd012773062cf3fa2549e44f58ed2401710)
        (replicate 32 0xff) (replicate 32 0xff)

  unfoldable pub handler_debug : ℕ → GlobalCtx → Reply
  unfolding send_debug_signature debug_test_case_1 debug_test_case_2 debug_test_case_3
      debug_test_case_4
  handler_debug test_case g =
      let zeros = replicate 72 0 in
      let signature =
        if test_case == 1
        then debug_test_case_1 zeros
        else if test_case == 2
        then debug_test_case_2 zeros
        else if test_case == 3
        then debug_test_case_3 zeros
        else if test_case == 4
        then debug_test_case_4 zeros
        else debug_test_case_1 zeros in
      record { context = g; sent = send_debug_signature signature ∷ []; review = none }

  -- The dispatcher of such a build: one more case of the switch.
  unfoldable pub debug_dispatcher : ℕ → Command → GlobalCtx → Reply
  unfolding handler_debug
  debug_dispatcher random cmd g =
      if is_debug cmd then handler_debug cmd.p1 g else apdu_dispatcher p random cmd g

  unfoldable pub debug_answer : ℕ → Option Command → GlobalCtx → Reply
  unfolding debug_dispatcher
  debug_answer random none g = answer p random none g
  debug_answer random (some cmd) g = debug_dispatcher random cmd g

  unfoldable pub debug_exchange : Exchange → GlobalCtx → Reply
  unfolding debug_answer
  debug_exchange e g =
      let r = debug_answer e.random e.command g in conclude p e.random e.choice r.review r

  -- The loop of app_main.c in such a build.
  unfoldable pub debug_main : List Exchange → GlobalCtx → GlobalCtx × List Response
  unfolding debug_exchange
  debug_main [] g = (g, [])
  debug_main (e ∷ es) g =
      let r = debug_exchange e g in let (g', rest) = debug_main es r.context in (g', r.sent ++ rest)
