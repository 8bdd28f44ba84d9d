-- ===== src/Sdk/Write.antt =====
-- write.h of the SDK: a number written at an offset of an array.
use app_kaspa.Prelude.{ℕ, ◌+◌, ◌≤◌, ◌≡◌, refl, List, length, splice, be_bytes, le_bytes}

pub record WriteApi : Type 0 where
  pub write_u16_be : List ℕ → ℕ → ℕ → List ℕ
  pub write_u32_be : List ℕ → ℕ → ℕ → List ℕ
  pub write_u64_be : List ℕ → ℕ → ℕ → List ℕ
  pub write_u16_le : List ℕ → ℕ → ℕ → List ℕ
  pub write_u32_le : List ℕ → ℕ → ℕ → List ℕ
  pub write_u64_le : List ℕ → ℕ → ℕ → List ℕ

-- The bytes of the number, in an array that has room for them.
abbrev pub Writes : ℕ → (ℕ → ℕ → List ℕ) → (List ℕ → ℕ → ℕ → List ℕ) → Type 0
Writes n bytes write =
    (out : List ℕ) (offset v : ℕ)
    → offset + n ≤ length out
    → write out offset v ≡ splice out offset (bytes n v)

pub record WriteLaws (api : WriteApi) : Type 0 where
  pub u16_be : Writes 2 be_bytes api.write_u16_be
  pub u32_be : Writes 4 be_bytes api.write_u32_be
  pub u64_be : Writes 8 be_bytes api.write_u64_be
  pub u16_le : Writes 2 le_bytes api.write_u16_le
  pub u32_le : Writes 4 le_bytes api.write_u32_le
  pub u64_le : Writes 8 le_bytes api.write_u64_le

-- A reference implementation.
write_bytes : (ℕ → List ℕ) → List ℕ → ℕ → ℕ → List ℕ
write_bytes bytes out offset v = splice out offset (bytes v)

unfoldable pub plain_write : WriteApi
unfolding write_bytes splice be_bytes le_bytes
plain_write = record {
  write_u16_be = write_bytes (be_bytes 2);
  write_u32_be = write_bytes (be_bytes 4);
  write_u64_be = write_bytes (be_bytes 8);
  write_u16_le = write_bytes (le_bytes 2);
  write_u32_le = write_bytes (le_bytes 4);
  write_u64_le = write_bytes (le_bytes 8);
}

pub plain_write-WriteLaws : WriteLaws plain_write
unfolding plain_write
plain_write-WriteLaws = record {
  u16_be = λ out offset v h. refl;
  u32_be = λ out offset v h. refl;
  u64_be = λ out offset v h. refl;
  u16_le = λ out offset v h. refl;
  u32_le = λ out offset v h. refl;
  u64_le = λ out offset v h. refl;
}
