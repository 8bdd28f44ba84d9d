-- ===== src/Session/Chunks.antt =====
-- The commands of SIGN_TX that carry a transaction, in the order in which a host sends them.
use app_kaspa.Prelude.{
  ℕ, zero, suc, ◌+◌, ◌-◌, ◌%◌, ◌≤◌, ◌<◌, ◌≡◌, refl, sym, ap, ap₂, ◌∙◌, Bool, false, List, [], ◌∷◌,
  ◌++◌, arith, length, length-append, get_or, set, take, drop, leb, replicate, splice, be_value,
}
use app_kaspa.Sdk.Platform.{Platform}
use app_kaspa.Sdk.Buffer.{BufferLaws, buffer_of}
use app_kaspa.Context.{confirm_transaction, GlobalCtx, zero_context}
use app_kaspa.Transaction.{
  TransactionInput, TransactionOutput, Transaction, zero_input, zero_output, zero_transaction,
}
use app_kaspa.Transaction.Deserialize.Header.{
  HeaderLayout, header_of, change_path, header_accepted, n_inputs, n_outputs,
}
use app_kaspa.Transaction.Deserialize.Output.{OutputLayout, output_accepted}
use app_kaspa.Transaction.Deserialize.Input.{input_of, input_accepted}
use app_kaspa.Response.{sw_ok}
use app_kaspa.Display.{reply_sw}
use app_kaspa.Handlers.SignTx.{
  start_transaction, end_chunk, parse_output, parse_input, handler_sign_tx,
}

abbrev pub output_of : List ℕ → TransactionOutput
output_of bytes = record {
  value = be_value (take 8 bytes);
  script_public_key = splice zero_output.script_public_key 0 (drop 8 bytes);
}

abbrev pub input_from : List ℕ → TransactionInput
input_from bytes = input_of bytes zero_input

-- The data of several commands as what each is parsed to.
abbrev pub parsed {ℓ} : {A : Type ℓ} → (List ℕ → A) → List (List ℕ) → List A
parsed f [] = []
parsed f (bytes ∷ rest) = f bytes ∷ parsed f rest

-- An array of `n` elements that begins with a list.
abbrev pub padded {ℓ} : {A : Type ℓ} → ℕ → A → List A → List A
padded n z xs = xs ++ replicate (n - length xs) z

-- The transaction of a header with the outputs and inputs so far.
abbrev pub transaction_of : ℕ → List ℕ → List (List ℕ) → List (List ℕ) → Transaction
transaction_of max header outputs inputs = record (header_of header (zero_transaction max)) {
  tx_outputs = padded 2 zero_output (parsed output_of outputs);
  tx_inputs = padded max zero_input (parsed input_from inputs);
}

abbrev parsing : ℕ → List ℕ → Transaction → ℕ → ℕ → GlobalCtx
parsing max header tx outputs inputs =
    let zero = zero_context max in
    let info = record zero.tx_info {
      transaction = tx;
      parsing_output_index = outputs;
      parsing_input_index = inputs;
    } in
    record zero {
      req_type = confirm_transaction;
      tx_info = info;
      bip32_path = change_path header zero.bip32_path;
    }

-- The context when those are parsed.
abbrev pub context_of : ℕ → List ℕ → List (List ℕ) → List (List ℕ) → GlobalCtx
context_of max header outputs inputs =
    parsing max header (transaction_of max header outputs inputs) (length outputs) (length inputs)

module _ {ℓ} {A : Type ℓ} where
  get_or-rest : (k : ℕ) (z : A) (xs : List A) → get_or (xs ++ replicate k z) (length xs) z ≡ z
  get_or-rest zero z [] = refl
  get_or-rest (suc k) z [] = refl
  get_or-rest k z (x ∷ xs) = get_or-rest k z xs

  set-rest :
      (k : ℕ) (z x : A) (xs : List A)
      → set (xs ++ replicate (suc k) z) (length xs) x ≡ (xs ++ x ∷ []) ++ replicate k z
  set-rest k z x [] = refl
  set-rest k z x (y ∷ xs) = ap (◌∷◌ y) (set-rest k z x xs)

  length-parsed : (f : List ℕ → A) (done : List (List ℕ)) → length (parsed f done) ≡ length done
  length-parsed f [] = refl
  length-parsed f (x ∷ done) = ap suc (length-parsed f done)

  parsed-append :
      (f : List ℕ → A) (a b : List (List ℕ)) → parsed f (a ++ b) ≡ parsed f a ++ parsed f b
  parsed-append f [] b = refl
  parsed-append f (x ∷ a) b = ap (◌∷◌ (f x)) (parsed-append f a b)

  -- The first free element of an array.
  next_free :
      (n : ℕ) (z : A) (f : List ℕ → A) (done : List (List ℕ))
      → get_or (padded n z (parsed f done)) (length done) z ≡ z
  next_free n z f done =
      ap (λ (i : ℕ). get_or (padded n z (parsed f done)) i z) (sym (length-parsed f done))
      ∙ get_or-rest (n - length (parsed f done)) z (parsed f done)

  set-next :
      (n : ℕ) (z : A) (f : List ℕ → A) (done : List (List ℕ)) (bytes : List ℕ)
      → length done < n
      → set (padded n z (parsed f done)) (length done) (f bytes)
        ≡ padded n z (parsed f (done ++ bytes ∷ []))
  set-next n z f done bytes h =
      let xs = parsed f done in
      let k = n - length (xs ++ f bytes ∷ []) in
      let count = length-parsed f done in
      let more : n - length xs ≡ suc k = omega (arith, length-append xs (f bytes ∷ [])) in
      ap (λ (i : ℕ). set (padded n z xs) i (f bytes)) (sym count)
      ∙ ap (λ m. set (xs ++ replicate m z) (length xs) (f bytes)) more
      ∙ set-rest k z (f bytes) xs
      ∙ ap (padded n z) (sym (parsed-append f done (bytes ∷ [])))

module _ (p : Platform) (laws : BufferLaws p.buffer) where
  open p use {max_input_count}

  pub handled_header :
      (random : ℕ) (header : List ℕ) (more : Bool) (g : GlobalCtx)
      → HeaderLayout max_input_count header
      → handler_sign_tx p random (buffer_of header) 0 more g
        ≡ reply_sw (context_of max_input_count header [] []) sw_ok
  unfolding handler_sign_tx start_transaction
  handled_header random header more g h =
      let whole : max_input_count - 0 ≡ max_input_count = omega arith in
      rw (header_accepted p.buffer laws max_input_count header _ _ h, whole) refl

  pub handled_output :
      (random : ℕ) (header : List ℕ) (outputs inputs : List (List ℕ)) (bytes : List ℕ) (more : Bool)
      → length outputs < n_outputs header
      → n_outputs header ≤ 2
      → OutputLayout bytes
      → handler_sign_tx p random
          (buffer_of bytes)
          1
          more
          (context_of max_input_count header outputs inputs)
        ≡ end_chunk p more (context_of max_input_count header (outputs ++ bytes ∷ []) inputs)
  unfolding handler_sign_tx parse_output
  handled_output random header outputs inputs bytes more h few layout =
      let i = length outputs in
      let room : leb 2 i ≡ false = ground arith in
      let declared : leb (n_outputs header % 256) i ≡ false = ground arith in
      let next = λ (array : List TransactionOutput) (n : ℕ).
        let tx = transaction_of max_input_count header outputs inputs in
        parsing max_input_count header (record tx { tx_outputs = array }) n (length inputs) in
      let count : (i + 1) % 256 ≡ length (outputs ++ bytes ∷ []) =
        omega (arith, length-append outputs (bytes ∷ [])) in
      rw
        (
          next_free 2 zero_output output_of outputs,
          output_accepted p.buffer laws bytes zero_output layout,
          room,
          declared,
        )
        (ap (end_chunk p more)
          (ap₂ next (set-next 2 zero_output output_of outputs bytes (omega arith)) count))

  pub handled_input :
      (random : ℕ) (header : List ℕ) (outputs inputs : List (List ℕ)) (bytes : List ℕ) (more : Bool)
      → length inputs < n_inputs header
      → n_inputs header ≤ max_input_count
      → max_input_count < 256
      → length bytes ≡ 46
      → handler_sign_tx p random
          (buffer_of bytes)
          2
          more
          (context_of max_input_count header outputs inputs)
        ≡ end_chunk p more (context_of max_input_count header outputs (inputs ++ bytes ∷ []))
  unfolding handler_sign_tx parse_input
  handled_input random header outputs inputs bytes more h few small whole =
      let i = length inputs in
      let room : leb (max_input_count % 256) i ≡ false = ground arith in
      let declared : leb (n_inputs header % 256) i ≡ false = ground arith in
      let next = λ (array : List TransactionInput) (n : ℕ).
        let tx = transaction_of max_input_count header outputs inputs in
        parsing max_input_count header (record tx { tx_inputs = array }) (length outputs) n in
      let count : (i + 1) % 256 ≡ length (inputs ++ bytes ∷ []) =
        omega (arith, length-append inputs (bytes ∷ [])) in
      rw
        (
          next_free max_input_count zero_input input_from inputs,
          input_accepted p.buffer laws bytes zero_input whole,
          room,
          declared,
        )
        (ap (end_chunk p more) (
          ap₂ next (set-next max_input_count zero_input input_from inputs bytes (omega arith))
            count))
