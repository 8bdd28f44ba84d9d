-- ===== src/Handlers/KeyRefusals.antt =====
-- The answers of GET_PUBLIC_KEY, by the bytes of its data.
use app_kaspa.Prelude.{
  ℕ, zero, suc, ◌+◌, ◌*◌, ◌%◌, ◌^◌, ◌<◌, ◌≤◌, ◌≡◌, ◌⊎◌, refl, sym, ap, ◌∙◌, Bool, not, ◌||◌, Option,
  none, some, List, [], ◌∷◌, arith, length, get_or, get_or-take, take, slice, replicate, splice,
  take-splice, take-take, ◌++◌, be_value, ltb, ◌==◌, if◌then◌else◌,
}
use app_kaspa.Sdk.Buffer.{BufferLaws, PathLaws, be_words, buffer_of, advance}
use app_kaspa.Sdk.Platform.{Platform}
use app_kaspa.Context.{state_none, GlobalCtx, zero_context}
use app_kaspa.Response.{
  status, sw_wrong_data_length, sw_wrong_bip32_path_len, sw_wrong_bip32_purpose,
  sw_wrong_bip32_coin_type, helper_send_response_pubkey,
}
use app_kaspa.Display.{Reply, ui_display_address}
use app_kaspa.Handlers.PublicKey.{written_length, handler_get_public_key}

-- The number of words, and the words.
abbrev pub path_count : List ℕ → ℕ
path_count bytes = be_value (slice bytes 0 1)

abbrev pub path_words : List ℕ → List ℕ
path_words bytes = let n = path_count bytes in be_words n (slice bytes 1 (4 * n))

-- The length of the path: a sixth word replaces it by its lowest byte.
abbrev pub path_length : List ℕ → ℕ
path_length bytes =
    let n = path_count bytes in if ltb 5 n then get_or (path_words bytes) 5 0 % 256 else n

abbrev pub path_levels : List ℕ → List ℕ
path_levels bytes = take (path_length bytes) (path_words bytes)

-- The status word for the first fault in the data.
abbrev pub key_fault : List ℕ → Option ℕ
key_fault bytes =
    let n = path_count bytes in
    if ltb (length bytes) 1 || (n == 0 || (ltb 10 n || ltb (length bytes) (1 + 4 * n)))
    then some sw_wrong_data_length
    else if ltb (path_length bytes) 2 || ltb 5 (path_length bytes)
    then some sw_wrong_bip32_path_len
    else if not (get_or (path_words bytes) 0 0 == 0x8000002c)
    then some sw_wrong_bip32_purpose
    else if not (get_or (path_words bytes) 1 0 == 0x8001b207)
    then some sw_wrong_bip32_coin_type
    else none

length-be_words : (n : ℕ) (bytes : List ℕ) → length (be_words n bytes) ≡ n
unfolding be_words
length-be_words zero bytes = refl
length-be_words (suc n) bytes = ap suc (length-be_words n _)

-- The five words of the context, the one with the length, and four behind the context.
abbrev ten_words : ℕ → List ℕ
ten_words count = replicate 5 0 ++ count ∷ replicate 4 0

abbrev written : List ℕ → List ℕ
written bytes = splice (ten_words (path_count bytes)) 0 (path_words bytes)

word_written :
    (bytes : List ℕ) (i : ℕ)
    → path_count bytes ≤ 10
    → i < path_count bytes
    → get_or (written bytes) i 0 ≡ get_or (path_words bytes) i 0
word_written bytes i few inside =
    let n = path_count bytes in
    let size = length-be_words n (slice bytes 1 (4 * n)) in
    sym (get_or-take n (written bytes) i 0 inside)
    ∙ ap (λ (xs : List ℕ). get_or xs i 0)
        (take-splice (ten_words n) (path_words bytes) n (sym size) (omega arith))

-- The test of the length passes only for a length of at most the number of words.
levels_placed :
    (bytes : List ℕ) (k : ℕ)
    → path_count bytes ≤ 10
    → k ≤ 5
    → k ≤ path_count bytes
    → take k (take 5 (written bytes)) ≡ take k (path_words bytes)
levels_placed bytes k few short inside =
    let n = path_count bytes in
    let size = length-be_words n (slice bytes 1 (4 * n)) in
    take-take k 5 (written bytes) short
    ∙ sym (take-take k n (written bytes) inside)
    ∙ ap (take k) (take-splice (ten_words n) (path_words bytes) n (sym size) (omega arith))

level_placed :
    (bytes : List ℕ) (i : ℕ)
    → path_count bytes ≤ 10
    → i < 5
    → i < path_count bytes
    → get_or (take 5 (written bytes)) i 0 ≡ get_or (path_words bytes) i 0
level_placed bytes i few short inside =
    get_or-take 5 (written bytes) i 0 short ∙ word_written bytes i few inside

module _ (p : Platform) (laws : BufferLaws p.buffer) (paths : PathLaws p.buffer) where
  -- The context with the key that is derived for the levels.
  abbrev pub key_context : List ℕ → GlobalCtx
  key_context bytes =
      let (error, raw_pubkey, chain_code) =
        p.crypto.bip32_derive_get_pubkey_256 (path_levels bytes) in
      record (zero_context p.max_input_count) {
        bip32_path_len = path_length bytes;
        bip32_path = take 5 (written bytes);
        pk_info = record { raw_public_key = slice raw_pubkey 1 64; chain_code = chain_code };
      }

  -- The call refuses with a status word, and no address is under review.
  abbrev pub Refuses : Reply → ℕ → Type 0
  Refuses r sw = (r.sent ≡ status sw ∷ []) × (r.review ≡ none) × (r.context.state ≡ state_none)

  -- Without a fault in the data the answer is the error of the derivation, or the key or its review.
  unfoldable pub Verdict : List ℕ → Bool → Reply → Option ℕ → Type 0
  Verdict bytes display r (some sw) = Refuses r sw
  Verdict bytes display r none =
      let error = (p.crypto.bip32_derive_get_pubkey_256 (path_levels bytes)).0 in
      let g = key_context bytes in
      ((error ≡ 0)
        × (r ≡ (
            if display
            then ui_display_address p g
            else record { context = g; sent = helper_send_response_pubkey g ∷ []; review = none })))
      ⊎ ((0 < error) × Refuses r (error % 2 ^ 16))

  -- GET_PUBLIC_KEY by the bytes of its data, whatever the context was: the answer is the status word
  -- of the first fault; without a fault it is the error of the derivation as a status word, or, for
  -- the key that is derived for the levels in the data, the display function or the response. The
  -- length of the path that is tested and used is the number of its words, or, where there are more
  -- than five, the lowest byte of the sixth.
  pub handler_get_public_key-Verdict :
      (bytes : List ℕ) (display : Bool) (g : GlobalCtx)
      → Verdict bytes display
          (handler_get_public_key p (buffer_of bytes) display g)
          (key_fault bytes)
  unfolding handler_get_public_key Verdict written_length
  handler_get_public_key-Verdict bytes display g =
      let buf = buffer_of bytes in
      let n = path_count bytes in
      let words = ten_words n in
      ground (
        arith,
        laws.u8.done buf 0,
        laws.u8.refused buf 0,
        paths.path_read (advance buf 1) words n,
        paths.path_accepted (advance buf 1) words n,
        paths.path_refused (advance buf 1) words n,
        levels_placed bytes (path_length bytes),
        word_written bytes 5,
        level_placed bytes 0,
        level_placed bytes 1,
      )
