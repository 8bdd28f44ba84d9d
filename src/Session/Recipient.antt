-- ===== src/Session/Recipient.antt =====
-- The recipient of a transaction, and the address that its review shows.
use app_kaspa.Prelude.{
  ℕ, zero, suc, ◌≤◌, ◌<◌, ◌≡◌, ◌⊎◌, inl, inr, refl, List, [], ◌∷◌, arith, All, IsByte, length,
  get_or, slice,
}
use native.Mathlib.Decide.{dec_lt}
use app_kaspa.Sdk.Platform.{Platform}
use app_kaspa.Context.{GlobalCtx}
use app_kaspa.Transaction.{TransactionOutput, zero_output}
use app_kaspa.Transaction.RoundTrip.{IsScript}
use app_kaspa.Transaction.Utils.AddressOf.{Pays}
use app_kaspa.Address.{AddressType, schnorr, ecdsa, p2sh, version}
use app_kaspa.Sighash.Preimage.{Scripts}
use app_kaspa.Display.{shown_address}
use app_kaspa.Display.Shown.{ReadsAs}
use app_kaspa.Handlers.Shown.{shown_address-ReadsAs}

abbrev pub first_script : GlobalCtx → List ℕ
first_script g = (get_or g.tx_info.transaction.tx_outputs 0 zero_output).script_public_key

-- The script of the first output has one of the three forms, in its array.
abbrev pub FirstScript : GlobalCtx → Type 0
FirstScript g = (length (first_script g) ≡ 40) × IsScript (first_script g)

pub Scripts-first :
    (n : ℕ) (outs : List TransactionOutput)
    → 1 ≤ n
    → length outs ≡ 2
    → Scripts n outs
    → IsScript (get_or outs 0 zero_output).script_public_key
Scripts-first n [] some_output two h = absurd (omega arith)
Scripts-first zero (o ∷ outs) some_output two h = absurd (omega arith)
Scripts-first (suc n) (o ∷ outs) some_output two (h, hs) = h

-- An ECDSA script whose key has no parity byte.
abbrev pub NoParity : List ℕ → Type 0
NoParity script = (get_or script 0 0 ≡ 0x21) × ((get_or script 1 0 < 2) ⊎ (3 < get_or script 1 0))

script-Pays :
    (script : List ℕ)
    → IsScript script
    → ((kind : AddressType) × (payload : List ℕ) × Pays script kind payload) ⊎ NoParity script
script-Pays script (inl (first, _, _)) = inl (p2sh, slice script 2 32, (first, refl))
script-Pays script (inr (inl (first, _))) = inl (schnorr, slice script 1 32, (first, refl))
script-Pays script (inr (inr (first, _))) =
    let b = get_or script 1 0 in
    elim (dec_lt b 2) [
      | yes low ↦ inr (first, inl low)
      | no not_low ↦ elim (dec_lt 3 b) [
        | yes high ↦ inr (first, inr high)
        | no not_high ↦
            let parity : (b ≡ 2) ⊎ (b ≡ 3) = ground arith in
            inl (ecdsa, b ∷ slice script 2 32, (first, parity, refl))
      ]
    ]

-- A number that is no byte.
abbrev pub Oversized : List ℕ → Type 0
Oversized bytes = (i : ℕ) × (256 ≤ get_or bytes i 0)

bytes_or : (bytes : List ℕ) → All IsByte bytes ⊎ Oversized bytes
bytes_or [] = inl tt
bytes_or (b ∷ bytes) = elim (dec_lt b 256) [
  | no large ↦ inr (0, omega arith)
  | yes small ↦ elim (bytes_or bytes) [
    | inl rest ↦ inl (small, rest)
    | inr (i, large) ↦ inr (suc i, large)
  ]
]

-- The address reads back as the version of the first output's script and the hash or the key that
-- the script pays, which are bytes; or the script is an ECDSA one without a parity byte.
abbrev pub ShowsRecipient : GlobalCtx → List ℕ → Type 0
ShowsRecipient g address =
    ((kind : AddressType) × (payload : List ℕ) × Pays (first_script g) kind payload
      × (ReadsAs address (version kind ∷ payload) ⊎ Oversized payload))
    ⊎ NoParity (first_script g)

pub shown_address-ShowsRecipient :
    (p : Platform) (g : GlobalCtx) → FirstScript g → ShowsRecipient g (shown_address p g)
shown_address-ShowsRecipient p g (room, known) = elim (script-Pays (first_script g) known) [
  | inr odd ↦ inr odd
  | inl (kind, payload, pays) ↦ elim (bytes_or payload) [
    | inr large ↦ inl (kind, payload, pays, inr large)
    | inl bytes ↦
        inl (kind, payload, pays, inl (shown_address-ReadsAs p g payload kind room bytes pays))
  ]
]
