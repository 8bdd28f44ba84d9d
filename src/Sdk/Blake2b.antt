-- ===== src/Sdk/Blake2b.antt =====
-- The streaming interface of BLAKE2b (import/blake2b.c, the reference code).
use app_kaspa.Prelude.{
  ℕ, ◌≤◌, ◌≡◌, refl, ◌∙◌, Bool, true, List, [], ◌++◌, length, replicate, length-replicate, splice,
  length-splice,
}

-- A call returns whether it succeeds, with what it leaves in the state or the output.
pub record Blake2b : Type 1 where
  pub State : Type 0
  pub blake2b_init_key : ℕ → List ℕ → Bool × State
  pub blake2b_update : State → List ℕ → Bool × State
  pub blake2b_final : State → ℕ → Bool × List ℕ

-- `Absorbed s outlen key message`: the state after `init_key outlen key` and updates that together
-- are the message.
pub record Blake2bLaws (b : Blake2b) : Type 1 where
  pub Absorbed : b.State → ℕ → List ℕ → List ℕ → Type 0
  pub digest : ℕ → List ℕ → List ℕ → List ℕ
  pub length-digest : (n : ℕ) (key m : List ℕ) → length (digest n key m) ≡ n
  pub init :
      (n : ℕ) (key : List ℕ)
      → 1 ≤ n
      → n ≤ 64
      → 1 ≤ length key
      → length key ≤ 64
      → (s : b.State) × (b.blake2b_init_key n key ≡ (true, s)) × Absorbed s n key []
  pub update :
      (s : b.State) (n : ℕ) (key m bytes : List ℕ)
      → Absorbed s n key m
      → (s' : b.State) × (b.blake2b_update s bytes ≡ (true, s')) × Absorbed s' n key (m ++ bytes)
  pub final :
      (s : b.State) (n outlen : ℕ) (key m : List ℕ)
      → Absorbed s n key m
      → n ≤ outlen
      → b.blake2b_final s outlen ≡ (true, digest n key m)

-- A reference implementation of the laws, which keeps the message and cuts it to the digest.
unfoldable pub plain_blake2b : Blake2b
unfolding splice
plain_blake2b = record {
  State = ℕ × List ℕ × List ℕ;
  blake2b_init_key = λ n key. (true, (n, key, []));
  blake2b_update = λ s bytes. (true, (s.0, s.1, s.2 ++ bytes));
  blake2b_final = λ s outlen. (true, splice (replicate s.0 0) 0 (s.2 ++ s.1));
}

unfoldable pub plain_blake2b-Blake2bLaws : Blake2bLaws plain_blake2b
unfolding plain_blake2b
plain_blake2b-Blake2bLaws = record {
  Absorbed = λ s n key m. s ≡ (n, key, m);
  digest = λ n key m. splice (replicate n 0) 0 (m ++ key);
  length-digest = λ n key m. length-splice (replicate n 0) 0 (m ++ key) ∙ length-replicate n 0;
  init = λ n key lo hi klo khi. ((n, key, []), refl, refl);
  update = λ s n key m bytes a. ((n, key, m ++ bytes), rw a refl, refl);
  final = λ s n outlen key m a le. rw a refl;
}
