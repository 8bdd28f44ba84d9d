-- ===== src/Session/Keys.antt =====
-- The keys that sign a transaction, and the commands that ask for the signatures.
use app_kaspa.Prelude.{
  ℕ, ◌≤◌, ◌≡◌, refl, ◌∙◌, true, some, none, List, [], ◌∷◌, arith, length, length-set, set, take,
}
use app_kaspa.Sdk.Crypto.{CryptoApi}
use app_kaspa.Transaction.{Transaction, TransactionInput}
use app_kaspa.Crypto.{address_path}
use app_kaspa.Session.{Exchange}

-- A device whose functions do not fail, with public keys of 33 bytes or more and signatures of 64.
pub record Reliable (crypto : CryptoApi) : Type 0 where
  pub derives : (path : List ℕ) → (crypto.bip32_derive_init_privkey_256 path).0 ≡ 0
  pub pairs : (key : List ℕ) → (crypto.cx_ecfp_generate_pair_no_throw key).0 ≡ 0
  pub long_key : (key : List ℕ) → 33 ≤ length (crypto.cx_ecfp_generate_pair_no_throw key).1
  pub signs :
      (random : ℕ) (key hash : List ℕ) → (crypto.cx_ecschnorr_sign_no_throw random key hash).0 ≡ 0
  pub whole_signature :
      (random : ℕ) (key hash : List ℕ)
      → length (crypto.cx_ecschnorr_sign_no_throw random key hash).1 ≡ 64

-- Public keys have 33 bytes or more and signatures 64.
pub record KeySizes (crypto : CryptoApi) : Type 0 where
  pub long_key : (key : List ℕ) → 33 ≤ length (crypto.cx_ecfp_generate_pair_no_throw key).1
  pub whole_signature :
      (random : ℕ) (key hash : List ℕ)
      → length (crypto.cx_ecschnorr_sign_no_throw random key hash).1 ≡ 64

-- The path 44'/111111'/account/type/index of an input.
abbrev pub input_path : Transaction → TransactionInput → List ℕ
input_path tx txin =
    0x8000002c ∷ 0x8001b207 ∷ tx.account ∷ txin.address_type ∷ txin.address_index ∷ []

pub address_path_five :
    (path : List ℕ) (account type index : ℕ)
    → length path ≡ 5
    → take 5 (address_path path account type index)
      ≡ 0x8000002c ∷ 0x8001b207 ∷ account ∷ type ∷ index ∷ []
address_path_five (a ∷ b ∷ c ∷ d ∷ e ∷ path) account type index h = refl
address_path_five _ account type index h = absurd (omega arith)

pub length-address_path :
    (path : List ℕ) (account type index : ℕ)
    → length (address_path path account type index) ≡ length path
length-address_path path account type index =
    length-set (set (set (set (set path 0 0x8000002c) 1 0x8001b207) 2 account) 3 type) 4 index
    ∙ length-set (set (set (set path 0 0x8000002c) 1 0x8001b207) 2 account) 3 type
    ∙ length-set (set (set path 0 0x8000002c) 1 0x8001b207) 2 account
    ∙ length-set (set path 0 0x8000002c) 1 0x8001b207
    ∙ length-set path 0 0x8000002c

-- SIGN_TX with P1 3.
abbrev pub next_signature : ℕ → Exchange
next_signature random = record {
  command = some (record { cla = 0xe0; ins = 0x06; p1 = 3; p2 = 0; lc = 0; payload = none });
  choice = true;
  random = random;
}

abbrev pub next_signatures : List ℕ → List Exchange
next_signatures [] = []
next_signatures (random ∷ randoms) = next_signature random ∷ next_signatures randoms
