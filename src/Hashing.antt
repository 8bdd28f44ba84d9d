-- ===== src/Hashing.antt =====
-- The three functions on hash states of sighash.c, and the do blocks of results that may fail.
pub mod Streams
use app_kaspa.Prelude.{
  ℕ, ◌+◌, ◌/◌, ◌%◌, Bool, true, false, not, ◌||◌, Option, none, some, List, ltb, ◌==◌,
  if◌then◌else◌, take, splice,
}
use app_kaspa.Sdk.Blake2b.{Blake2b}

-- `none` is the result `false`. The do blocks stand for the ladders of `if (!f(...)) return false;`.
infixl 5 ◌>>=◌
abbrev pub ◌>>=◌ {ℓ κ} : {A : Type ℓ} {B : Type κ} → Option A → (A → Option B) → Option B
none >>= f = none
some a >>= f = f a

abbrev pub guard {ℓ} : {A : Type ℓ} → Bool → Option A → Option A
guard true m = m
guard false m = none

-- What is left behind by a call that reports success.
abbrev pub on_success {ℓ} : {A : Type ℓ} → Bool × A → Option A
on_success r = if r.0 then some r.1 else none

module _ (b : Blake2b) where
  open b use {State, blake2b_init_key, blake2b_update, blake2b_final}

  -- The key is never null here.
  unfoldable pub hash_init : ℕ → List ℕ → ℕ → Option State
  hash_init size key key_len =
      if not (size % 8 == 0) || ltb size 8 || ltb 512 size
      then none
      else on_success (blake2b_init_key (size / 8) (take key_len key))

  unfoldable pub hash_update : State → List ℕ → ℕ → Option State
  hash_update hash bytes len = on_success (blake2b_update hash (take len bytes))

  -- The digest is written over the front of `out`.
  unfoldable pub hash_finalize : State → List ℕ → ℕ → Option (List ℕ)
  hash_finalize hash out out_len =
      if ltb out_len 32
      then none
      else on_success (let (done, d) = blake2b_final hash 32 in (done, splice out 0 d))
