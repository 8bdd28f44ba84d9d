-- ===== src/Display/Nbgl/Touch.antt =====
-- The display functions of the two kinds of devices against each other.
use app_kaspa.Prelude.{
  ℕ, zero, suc, ◌-◌, ◌≤◌, ◌≡◌, refl, ap, ◌∙◌, Bool, true, false, List, [], ◌∷◌, ◌++◌, arith, length,
  length-take, take, drop, replicate, length-replicate, splice, splice-front, ltb, ◌==◌,
  if◌then◌else◌,
}
use mathlib.Core.Option
use app_kaspa.Sdk.Platform.{Platform}
use app_kaspa.Context.{GlobalCtx}
use app_kaspa.Address.{schnorr, compress_public_key, encode_address, address_from_pubkey}
use app_kaspa.Crypto.{message_memory}
use app_kaspa.Format.{format_message_to_sign}
use app_kaspa.Display.{
  Review, review_pubkey, review_transaction, review_message, Reply, c_string, ui_display_address,
  ui_display_transaction, ui_display_message,
}
use app_kaspa.Display.Flow.{
  bip32_path_caption, amount_caption, to_caption, fees_caption, message_caption,
}
use app_kaspa.Display.Nbgl.{
  UseCase, address_review, review_of_transaction, review_of_message, NbglReply, pair,
  nbgl_display_address, nbgl_display_transaction, nbgl_display_message,
}

c_string-append-zeros : (n : ℕ) (text : List ℕ) → c_string (text ++ replicate n 0) ≡ c_string text
c_string-append-zeros zero [] = refl
c_string-append-zeros (suc n) [] = refl
c_string-append-zeros n (c ∷ cs) =
    ap (λ rest. if c == 0 then [] else c ∷ rest) (c_string-append-zeros n cs)

drop-replicate : (k n : ℕ) → drop {A = ℕ} k (replicate n 0) ≡ replicate (n - k) 0
drop-replicate zero n = let e : n ≡ n - 0 = omega arith in ap (λ m. replicate m 0) e
drop-replicate (suc k) zero = let e : 0 ≡ 0 - suc k = omega arith in ap (λ m. replicate m 0) e
drop-replicate (suc k) (suc n) =
    let e : n - k ≡ suc n - suc k = omega arith in drop-replicate k n ∙ ap (λ m. replicate m 0) e

-- A text over the front of zeros is the same text in an array of any size.
c_string-splice-zeros :
    (n : ℕ) (text : List ℕ)
    → length text ≤ n
    → c_string (splice (replicate n 0) 0 text) ≡ c_string text
c_string-splice-zeros n text h =
    rw
      (
        splice-front (replicate n 0) text (omega (arith, length-replicate {A = ℕ} n 0)),
        drop-replicate (length text) n,
      )
      (c_string-append-zeros (n - length text) text)

-- The end of `address_from_pubkey` in two arrays of zeros that have room for the address.
placed_alike :
    (m n compressed_size : ℕ) (address : List ℕ)
    → 67 ≤ m
    → 67 ≤ n
    → let result : ℕ → Bool × List ℕ = λ len.
      if ltb len 67
      then (false, replicate len 0)
      else if compressed_size == 0
      then (false, replicate len 0)
      else (true, splice (replicate len 0) 0 (take 67 address)) in
      ((result m).0 ≡ (result n).0) × (c_string (result m).1 ≡ c_string (result n).1)
placed_alike m n compressed_size address hm hn =
    let short = length-take 67 address in
    let on_m = c_string-splice-zeros m (take 67 address) (omega (arith, short)) in
    let on_n = c_string-splice-zeros n (take 67 address) (omega (arith, short)) in
    let zeros_m = c_string-append-zeros m [] in
    let zeros_n = c_string-append-zeros n [] in ground arith

address_from_pubkey-alike :
    (key : List ℕ) (m n : ℕ)
    → 67 ≤ m
    → 67 ≤ n
    → let on_m = address_from_pubkey key schnorr (replicate m 0) m in
      let on_n = address_from_pubkey key schnorr (replicate n 0) n in
      (on_m.0 ≡ on_n.0) × (c_string on_m.1 ≡ c_string on_n.1)
unfolding address_from_pubkey
address_from_pubkey-alike key m n hm hn =
    let (compressed_size, compressed) = compress_public_key key schnorr (replicate 33 0) 33 in
    placed_alike m n compressed_size (encode_address compressed compressed_size schnorr) hm hn

-- The use case of a review: the same texts, in the order of the touch screen.
abbrev pub use_case_of : Review → UseCase
use_case_of (review_pubkey path address) =
    address_review address (pair bip32_path_caption path ∷ [])
use_case_of (review_transaction amount fees address) =
    review_of_transaction
      (pair amount_caption amount ∷ pair to_caption address ∷ pair fees_caption fees ∷ [])
use_case_of (review_message path message) =
    review_of_message (pair bip32_path_caption path ∷ pair message_caption message ∷ [])

abbrev pub touch : Reply → NbglReply
touch r = record { context = r.context; sent = r.sent; use_case = Option.map use_case_of r.review }

module _ (p : Platform) where
  pub nbgl_display_address-touch :
      (g : GlobalCtx) → nbgl_display_address p g ≡ touch (ui_display_address p g)
  unfolding nbgl_display_address ui_display_address
  nbgl_display_address-touch g =
      let (same, text) =
        address_from_pubkey-alike g.pk_info.raw_public_key 69 67 (omega arith) (omega arith) in
      ground arith

  pub nbgl_display_transaction-touch :
      (g : GlobalCtx) → nbgl_display_transaction p g ≡ touch (ui_display_transaction p g)
  unfolding nbgl_display_transaction ui_display_transaction
  nbgl_display_transaction-touch g = ground arith

  pub nbgl_display_message-touch :
      (g : GlobalCtx)
      → p.message_buffer_len ≡ p.max_message_len
      → nbgl_display_message p g ≡ touch (ui_display_message p g)
  unfolding nbgl_display_message ui_display_message
  nbgl_display_message-touch g e =
      let text_of = λ (room : ℕ).
        format_message_to_sign (replicate room 0) room (message_memory g.msg_info)
          g.msg_info.message_len in
      let text = ap text_of e in ground arith
