-- ===== src/Handlers/Message.antt =====
-- Which messages SIGN_MESSAGE puts up for review, and what it keeps of them.
use app_kaspa.Prelude.{
  ℕ, zero, suc, ◌+◌, ◌≤◌, ◌≡◌, refl, sym, ap, ◌∙◌, List, [], ◌∷◌, ◌++◌, arith, length, length-take,
  length-drop, take, drop, take-append-drop, take-splice, slice, splice, be_value, replicate,
}
use app_kaspa.Sdk.Buffer.{BufferLaws, buffer_of, advance}
use app_kaspa.Sdk.Platform.{Platform}
use app_kaspa.Context.{confirm_message, GlobalCtx, MessageSignCtx, zero_context}
use app_kaspa.Crypto.{message_memory, address_path}
use app_kaspa.Display.{ui_display_message}
use app_kaspa.Handlers.SignMsg.{copy_message, handler_sign_msg}

drop-drop : {A : Type 0} (m n k : ℕ) (xs : List A) → k ≡ m + n → drop n (drop m xs) ≡ drop k xs
drop-drop zero n k xs e = ap (λ (i : ℕ). drop i xs) (omega arith)
drop-drop (suc m) n zero xs e = absurd (omega arith)
drop-drop (suc m) zero (suc k) [] e = refl
drop-drop (suc m) (suc n) (suc k) [] e = refl
drop-drop (suc m) n (suc k) (x ∷ xs) e = drop-drop m n k xs (omega arith)

-- The three arrays behind one another are the memory that the copy wrote.
copy_message-memory :
    (m : MessageSignCtx) (bytes : List ℕ)
    → message_memory (copy_message m bytes) ≡ splice (message_memory m) 0 bytes
copy_message-memory m bytes =
    let memory = splice (message_memory m) 0 bytes in
    let behind : take 32 (drop 128 memory) ++ drop 160 memory ≡ drop 128 memory =
      ap (λ (xs : List ℕ). take 32 (drop 128 memory) ++ xs) (sym (drop-drop 128 32 160 memory refl))
      ∙ take-append-drop 32 (drop 128 memory) in
    ap (λ (xs : List ℕ). take 128 memory ++ xs) behind ∙ take-append-drop 128 memory

-- The fields of the data at their offsets.
abbrev pub message_type : List ℕ → ℕ
message_type bytes = be_value (slice bytes 0 1)

abbrev pub message_index : List ℕ → ℕ
message_index bytes = be_value (slice bytes 1 4)

abbrev pub message_account : List ℕ → ℕ
message_account bytes = be_value (slice bytes 5 4)

abbrev pub length_field : List ℕ → ℕ
length_field bytes = be_value (slice bytes 9 1)

pub record MessageLayout (max_message_len : ℕ) (bytes : List ℕ) : Type 0 where
  pub known_type : message_type bytes ≤ 1
  pub hardened : 0x80000000 ≤ message_account bytes
  pub not_empty : 1 ≤ length_field bytes
  pub short : length_field bytes ≤ max_message_len
  pub whole : 10 + length_field bytes ≤ length bytes

module _ (p : Platform) (laws : BufferLaws p.buffer) where
  abbrev message_ctx : List ℕ → MessageSignCtx
  message_ctx bytes =
      let zero = (zero_context p.max_input_count).msg_info in
      let fields = record zero {
        message_len = length_field bytes;
        account = message_account bytes;
        address_type = message_type bytes;
        address_index = message_index bytes;
      } in
      copy_message fields (slice bytes 10 (length_field bytes))

  -- The context of the review: cleared, with the message and its path.
  abbrev pub message_context : List ℕ → GlobalCtx
  message_context bytes =
      let zero = zero_context p.max_input_count in
      record zero {
        msg_info = message_ctx bytes;
        req_type = confirm_message;
        bip32_path =
            address_path (replicate 5 0) (message_account bytes) (message_type bytes)
              (message_index bytes);
        bip32_path_len = 5;
      }

  message_kept :
      (bytes : List ℕ)
      → MessageLayout p.max_message_len bytes
      → p.max_message_len ≤ 224
      → let n = length_field bytes in
        take n (message_memory (message_context bytes).msg_info) ≡ slice bytes 10 n
  message_kept bytes h fits =
      let n = length_field bytes in
      let memory = message_memory (zero_context p.max_input_count).msg_info in
      let text = slice bytes 10 n in
      let l : n ≡ length text =
        omega (arith, length-take n (drop 10 bytes), length-drop 10 bytes, h.whole) in
      let room : length memory ≡ 224 = refl in
      let short = h.short in
      ap (take n) (copy_message-memory (zero_context p.max_input_count).msg_info text)
      ∙ take-splice memory text n l (omega arith)

  -- Data of the layout goes to the review with the path of its account, type and index, whatever
  -- the context was, and its text is at `message`, where MAX_MESSAGE_LEN is at most the 224 bytes
  -- of the three arrays there.
  pub handler_sign_msg-reviews :
      (bytes : List ℕ) (g : GlobalCtx)
      → MessageLayout p.max_message_len bytes
      → p.max_message_len ≤ 224
      → let n = length_field bytes in
        (handler_sign_msg p (buffer_of bytes) g ≡ ui_display_message p (message_context bytes))
        × (take n (message_memory (message_context bytes).msg_info) ≡ slice bytes 10 n)
  unfolding handler_sign_msg
  handler_sign_msg-reviews bytes g h fits =
      let buf = buffer_of bytes in
      let n = length_field bytes in
      let displayed : handler_sign_msg p (buffer_of bytes) g
          ≡ ui_display_message p (message_context bytes) =
        ground (
          arith,
          h.known_type,
          h.hardened,
          h.not_empty,
          h.short,
          h.whole,
          laws.u8.done buf 0,
          laws.u32.done (advance buf 1) 0,
          laws.u32.done (advance buf 5) 0,
          laws.u8.done (advance buf 9) 0,
          laws.can_read (advance buf 10) n,
          laws.seek (advance buf 10) n,
        ) in
      (displayed, message_kept bytes h fits)
