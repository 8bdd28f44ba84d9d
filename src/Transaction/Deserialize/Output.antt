-- ===== src/Transaction/Deserialize/Output.antt =====
-- Which bytes `transaction_output_deserialize` accepts.
use app_kaspa.Prelude.{
  ℕ, ◌+◌, ◌-◌, ◌≤◌, ◌<◌, ◌≡◌, ◌⊎◌, ◌↔◌, ◌≢◌, ◌||◌, List, arith, get_or, length, length-drop, take,
  drop, take_all, splice, be_value, ◌==◌, if◌then◌else◌,
}
use app_kaspa.Sdk.Buffer.{
  Buffer, BufferApi, BufferLaws, byte_at, bytes_at, advance, buffer_of, CanRead,
}
use app_kaspa.Transaction.Types.{
  ParserStatus, parsing_ok, output_parsing_error, output_script_pubkey_parsing_error,
  TransactionOutput,
}
use app_kaspa.Transaction.Deserialize.{
  copy_script, read_p2sh, read_p2pk, transaction_output_deserialize,
}

-- The three scripts, at their offsets in the data of a command.
abbrev pub OutputLayout : List ℕ → Type 0
OutputLayout bytes =
    ((length bytes ≡ 43)
      × (get_or bytes 8 0 ≡ 0xaa)
      × (get_or bytes 9 0 ≡ 0x20)
      × (get_or bytes 42 0 ≡ 0x87))
    ⊎ ((length bytes ≡ 42) × (get_or bytes 8 0 ≡ 0x20) × (get_or bytes 41 0 ≡ 0xac))
    ⊎ ((length bytes ≡ 43) × (get_or bytes 8 0 ≡ 0x21) × (get_or bytes 42 0 ≡ 0xab))

abbrev valued : List ℕ → TransactionOutput → TransactionOutput
valued bytes txout = record txout { value = be_value (bytes_at (buffer_of bytes) 8) }

-- A script of `n` bytes at the end of the buffer.
abbrev Last : Buffer → ℕ → Type 0
Last buf n = buf.size ≡ buf.offset + n

-- What is left when a script of `n` bytes ends the buffer.
abbrev copied : Buffer → TransactionOutput → ℕ → ParserStatus × Buffer × TransactionOutput
copied buf txout n = (
  parsing_ok,
  advance buf n,
  record txout { script_public_key = splice txout.script_public_key 0 (bytes_at buf n) },
)

module _ (api : BufferApi) (laws : BufferLaws api) where
  copy_script_lem :
      (buf : Buffer) (txout : TransactionOutput) (n : ℕ)
      → CanRead buf n
      → copy_script api buf txout n ≡ (
        if buf.size == buf.offset + n then parsing_ok else output_parsing_error,
        advance buf n,
        record txout { script_public_key = splice txout.script_public_key 0 (bytes_at buf n) },
      )
  unfolding copy_script
  copy_script_lem buf txout n h = rw (laws.seek buf n h)

  read_p2sh_iff :
      (buf : Buffer) (txout : TransactionOutput)
      → ((read_p2sh api buf txout).0 ≡ parsing_ok)
        ↔ (Last buf 35 × (byte_at buf 1 ≡ 0x20) × (byte_at buf 34 ≡ 0x87))
  unfolding read_p2sh
  read_p2sh_iff buf txout = ground (
    arith,
    laws.can_read buf 2,
    laws.cannot_read buf 2,
    laws.can_read buf 35,
    laws.cannot_read buf 35,
    copy_script_lem buf txout 35,
  )

  read_p2pk_iff :
      (buf : Buffer) (txout : TransactionOutput) (n : ℕ)
      → (n ≡ 0x20) ⊎ (n ≡ 0x21)
      → ((read_p2pk api buf txout n).0 ≡ parsing_ok)
        ↔ (Last buf (n + 2) × (byte_at buf (n + 1) ≡ 0xac - (n - 0x20)))
  unfolding read_p2pk
  read_p2pk_iff buf txout n h = ground (
    arith,
    laws.can_read buf (n + 2),
    laws.cannot_read buf (n + 2),
    copy_script_lem buf txout (n + 2),
  )

  after_value : List ℕ → TransactionOutput → ParserStatus × Buffer × TransactionOutput
  after_value bytes txout =
      let rest = advance (buffer_of bytes) 8 in
      let first = get_or bytes 8 0 in
      if first == 0xaa
      then read_p2sh api rest (valued bytes txout)
      else if first == 0x20 || first == 0x21
      then read_p2pk api rest (valued bytes txout) first
      else (output_script_pubkey_parsing_error, rest, valued bytes txout)

  output-after_value :
      (bytes : List ℕ) (txout : TransactionOutput)
      → 9 ≤ length bytes
      → transaction_output_deserialize api (buffer_of bytes) txout ≡ after_value bytes txout
  unfolding transaction_output_deserialize after_value
  output-after_value bytes txout h =
      rw (laws.u64.done (buffer_of bytes) txout.value (omega arith))
        (rw (laws.can_read (advance (buffer_of bytes) 8) 1 (omega arith)))

  output_short :
      (bytes : List ℕ) (txout : TransactionOutput)
      → length bytes < 9
      → (transaction_output_deserialize api (buffer_of bytes) txout).0 ≢ parsing_ok
  unfolding transaction_output_deserialize
  output_short bytes txout h =
      let buf = buffer_of bytes in
      ground (
        arith,
        laws.u64.done buf txout.value,
        laws.u64.refused buf txout.value,
        laws.cannot_read (advance buf 8) 1,
      )

  after_value_iff :
      (bytes : List ℕ) (txout : TransactionOutput)
      → ((after_value bytes txout).0 ≡ parsing_ok) ↔ OutputLayout bytes
  unfolding after_value
  after_value_iff bytes txout =
      let rest = advance (buffer_of bytes) 8 in
      ground (
        arith,
        read_p2sh_iff rest (valued bytes txout),
        read_p2pk_iff rest (valued bytes txout) 0x20,
        read_p2pk_iff rest (valued bytes txout) 0x21,
      )

  -- An output is accepted exactly when its data is 8 bytes of value and then one of the three
  -- scripts, to the end: 0xaa 0x20, a hash of 32 bytes and 0x87, or 0x20, a key of 32 bytes and
  -- 0xac, or 0x21, a key of 33 bytes and 0xab.
  pub output_accepts_iff :
      (bytes : List ℕ) (txout : TransactionOutput)
      → ((transaction_output_deserialize api (buffer_of bytes) txout).0 ≡ parsing_ok)
        ↔ OutputLayout bytes
  output_accepts_iff bytes txout =
      grind (
        arith,
        output-after_value bytes txout,
        output_short bytes txout,
        after_value_iff bytes txout,
      )

  read_p2sh_ok :
      (buf : Buffer) (txout : TransactionOutput)
      → Last buf 35
      → byte_at buf 1 ≡ 0x20
      → byte_at buf 34 ≡ 0x87
      → read_p2sh api buf txout ≡ copied buf txout 35
  unfolding read_p2sh
  read_p2sh_ok buf txout l k e =
      ground (arith, laws.can_read buf 2, laws.can_read buf 35, copy_script_lem buf txout 35)

  read_p2pk_ok :
      (buf : Buffer) (txout : TransactionOutput) (n : ℕ)
      → (n ≡ 0x20) ⊎ (n ≡ 0x21)
      → Last buf (n + 2)
      → byte_at buf (n + 1) ≡ 0xac - (n - 0x20)
      → read_p2pk api buf txout n ≡ copied buf txout (n + 2)
  unfolding read_p2pk
  read_p2pk_ok buf txout n k l e =
      ground (arith, laws.can_read buf (n + 2), copy_script_lem buf txout (n + 2))

  -- Data of one of the three layouts is accepted to its end: the value is big endian, and the
  -- script is the rest; bytes of the array past the script stay as they were.
  pub output_accepted :
      (bytes : List ℕ) (txout : TransactionOutput)
      → OutputLayout bytes
      → transaction_output_deserialize api (buffer_of bytes) txout ≡ (
        parsing_ok,
        advance (buffer_of bytes) (length bytes),
        record {
          value = be_value (take 8 bytes);
          script_public_key = splice txout.script_public_key 0 (drop 8 bytes);
        },
      )
  unfolding after_value
  output_accepted bytes txout h =
      let rest = advance (buffer_of bytes) 8 in
      ground (
        arith,
        output-after_value bytes txout,
        read_p2sh_ok rest (valued bytes txout),
        read_p2pk_ok rest (valued bytes txout) 0x20,
        read_p2pk_ok rest (valued bytes txout) 0x21,
        length-drop 8 bytes,
        take_all 35 (drop 8 bytes),
        take_all 34 (drop 8 bytes),
      )
