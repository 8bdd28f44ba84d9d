-- ===== src/Handlers/PublicKey.antt =====
-- handler/get_public_key.c, get_version.c and get_app_name.c.
use app_kaspa.Prelude.{
  ℕ, ◌%◌, ◌^◌, Bool, not, ◌||◌, none, List, [], ◌∷◌, ◌++◌, replicate, ltb, ◌==◌, if◌then◌else◌,
  get_or, take, slice,
}
use app_kaspa.Sdk.Buffer.{Buffer}
use app_kaspa.Sdk.Platform.{Platform}
use app_kaspa.Context.{GlobalCtx, zero_context}
use app_kaspa.Response.{
  sw_ok, sw_wrong_data_length, sw_wrong_bip32_path_len, sw_wrong_bip32_purpose,
  sw_wrong_bip32_coin_type, helper_send_response_pubkey,
}
use app_kaspa.Display.{Reply, reply_sw, ui_display_address}

-- `bip32_path_len` behind the words that have been written for a count.
unfoldable pub written_length : ℕ → List ℕ → ℕ
written_length count written = if ltb 5 count then get_or written 5 0 % 256 else count

module _ (p : Platform) where
  open p use {buffer, crypto}
  open buffer use {buffer_read_u8, buffer_read_bip32_path}
  open crypto use {bip32_derive_get_pubkey_256}

  -- The path is written over the five words of `bip32_path` and on: the lowest byte of a sixth word is
  -- `bip32_path_len`, the rest of it is padding, and more words are behind the context.
  unfoldable pub handler_get_public_key : Buffer → Bool → GlobalCtx → Reply
  handler_get_public_key cdata display g =
      let g₀ = zero_context p.max_input_count in
      let (counted, count, buf₁) = buffer_read_u8 cdata g₀.bip32_path_len in
      let g₁ = record g₀ { bip32_path_len = count } in
      let words : List ℕ = g₀.bip32_path ++ count ∷ replicate 4 0 in
      let (read, written, buf₂) = buffer_read_bip32_path buf₁ words count in
      let path = take 5 written in
      let n = written_length count written in
      let g₂ = record g₁ { bip32_path = path; bip32_path_len = n } in
      let (error, raw_pubkey, chain_code) = bip32_derive_get_pubkey_256 (take n path) in
      let g₃ = record g₂ {
        pk_info = record { raw_public_key = g₀.pk_info.raw_public_key; chain_code = chain_code };
      } in
      let g₄ = record g₃ {
        pk_info = record { raw_public_key = slice raw_pubkey 1 64; chain_code = chain_code };
      } in
      if not counted
      then reply_sw g₁ sw_wrong_data_length
      else if not read
      then reply_sw g₂ sw_wrong_data_length
      else if ltb n 2 || ltb 5 n
      then reply_sw g₂ sw_wrong_bip32_path_len
      else if not (get_or path 0 0 == 0x8000002c)
      then reply_sw g₂ sw_wrong_bip32_purpose
      else if not (get_or path 1 0 == 0x8001b207)
      then reply_sw g₂ sw_wrong_bip32_coin_type
      else if not (error == 0)
      then reply_sw g₃ (error % 2 ^ 16)
      else if display
      then ui_display_address p g₄
      else record { context = g₄; sent = helper_send_response_pubkey g₄ ∷ []; review = none }

  unfoldable pub handler_get_version : GlobalCtx → Reply
  handler_get_version g = record {
    context = g;
    sent =
        record {
          bytes = (p.major_version % 256) ∷ (p.minor_version % 256) ∷ (p.patch_version % 256) ∷ [];
          sw = sw_ok;
        }
        ∷ [];
    review = none;
  }

  unfoldable pub handler_get_app_name : GlobalCtx → Reply
  handler_get_app_name g = record {
    context = g;
    sent = record { bytes = p.app_name; sw = sw_ok } ∷ [];
    review = none;
  }
