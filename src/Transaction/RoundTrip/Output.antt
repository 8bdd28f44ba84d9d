-- ===== src/Transaction/RoundTrip/Output.antt =====
-- The round trip of a transaction output.
use app_kaspa.Prelude.{
  ℕ, ◌+◌, ◌-◌, ◌^◌, ◌≤◌, ◌<◌, ◌≡◌, ◌⊎◌, inl, inr, refl, sym, ◌∙◌, some, List, arith, length,
  length-append, length-take, get_or, get_or-append, get_or-take, take, take-append, drop,
  drop-append, replicate, take-append-drop, splice, splice-front, take-splice, be_bytes, be_value,
  be_value-be_bytes, length-be_bytes,
}
use app_kaspa.Sdk.Buffer.{BufferApi, BufferLaws, buffer_of, advance}
use app_kaspa.Sdk.Write.{WriteApi, WriteLaws}
use app_kaspa.Transaction.Types.{parsing_ok, TransactionOutput, zero_output}
use app_kaspa.Transaction.Deserialize.{transaction_output_deserialize}
use app_kaspa.Transaction.Deserialize.Output.{OutputLayout, output_accepted}
use app_kaspa.Transaction.Serialize.{transaction_output_serialize}
use app_kaspa.Transaction.Serialize.Layout.{output_wire, script_len, output_serialize-wire}

-- The three scripts of the application.
abbrev pub IsScript : List ℕ → Type 0
IsScript s =
    ((get_or s 0 0 ≡ 0xaa) × (get_or s 1 0 ≡ 0x20) × (get_or s 34 0 ≡ 0x87))
    ⊎ ((get_or s 0 0 ≡ 0x20) × (get_or s 33 0 ≡ 0xac))
    ⊎ ((get_or s 0 0 ≡ 0x21) × (get_or s 34 0 ≡ 0xab))

-- A value that fits, and a script in its array with zeros behind it.
pub record IsOutput (txout : TransactionOutput) : Type 0 where
  pub value_fits : txout.value < 2 ^ 64
  pub array_length : length txout.script_public_key ≡ 40
  pub known_script : IsScript txout.script_public_key
  pub padded :
      drop (script_len txout.script_public_key) txout.script_public_key
      ≡ replicate (40 - script_len txout.script_public_key) 0

module _ (txout : TransactionOutput) (v : IsOutput txout) where
  open txout use {value, script_public_key}

  abbrev n : ℕ
  n = script_len script_public_key

  script_len-le : (n ≡ 34) ⊎ (n ≡ 35)
  script_len-le = ground (arith, v.known_script)

  length-wire : length (output_wire txout) ≡ 8 + n
  length-wire = omega (
    arith,
    script_len-le,
    v.array_length,
    length-be_bytes 8 value,
    length-take n script_public_key,
    length-append (be_bytes 8 value) (take n script_public_key),
  )

  script_at : (i : ℕ) → i < n → get_or (output_wire txout) (8 + i) 0 ≡ get_or script_public_key i 0
  script_at i h =
      get_or-append (be_bytes 8 value) (take n script_public_key) 8 i 0
        (sym (length-be_bytes 8 value))
      ∙ get_or-take n script_public_key i 0 h

  output_wire-layout : OutputLayout (output_wire txout)
  output_wire-layout =
      ground
        (arith, v.known_script, length-wire, script_at 0, script_at 1, script_at 33, script_at 34)

  zeros_behind : drop n zero_output.script_public_key ≡ replicate (40 - n) 0
  zeros_behind = elim script_len-le [ inl e ↦ rw e | inr e ↦ rw e ]

  script_read :
      splice zero_output.script_public_key 0 (drop 8 (output_wire txout)) ≡ script_public_key
  script_read =
      let taken = take n script_public_key in
      let l : length taken ≡ n =
        omega (arith, script_len-le, v.array_length, length-take n script_public_key) in
      rw (drop-append (be_bytes 8 value) taken 8 (sym (length-be_bytes 8 value))) (
        splice-front zero_output.script_public_key taken (omega (arith, script_len-le))
        ∙ rw (l, zeros_behind, ← v.padded) (take-append-drop n script_public_key))

  value_read : be_value (take 8 (output_wire txout)) ≡ value
  value_read =
      rw
        (take-append (be_bytes 8 value) (take n script_public_key) 8
          (sym (length-be_bytes 8 value)))
        (omega (arith, be_value-be_bytes 8 value, v.value_fits))

  -- What `transaction_output_serialize` writes of an output with a value below 2 ^ 64 and one of
  -- the three scripts in its array of 40 bytes, zeros behind it, into an array of 43 bytes or
  -- more, `transaction_output_deserialize` reads back into a zeroed output.
  pub output_deserialize-serialize :
      (reads : BufferApi) (writes : WriteApi) (out : List ℕ) (out_len : ℕ)
      → BufferLaws reads
      → WriteLaws writes
      → 43 ≤ out_len
      → out_len ≤ length out
      → let (_, out') = transaction_output_serialize writes txout out out_len in
        let wire = take (8 + n) out' in
        (transaction_output_serialize writes txout out out_len).0 ≡ some (8 + n)
        × (transaction_output_deserialize reads (buffer_of wire) zero_output
            ≡ (parsing_ok, advance (buffer_of wire) (8 + n), txout))
  output_deserialize-serialize reads writes out out_len rl wl room fits =
      let e = output_serialize-wire writes wl txout out out_len (omega arith) fits in
      let t : take (8 + n) (splice out 0 (output_wire txout)) ≡ output_wire txout =
        take-splice out (output_wire txout) (8 + n) (omega (arith, length-wire))
          (omega (arith, script_len-le)) in
      rw (e, t)
        (
          refl,
          output_accepted reads rl (output_wire txout) zero_output output_wire-layout
              ∙ rw (value_read, script_read, length-wire),
        )
