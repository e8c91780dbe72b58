-- ===== src/ByteOrder.antt =====
-- Big-endian bytes. `ByteOrder` stands for the `byteorder` crate's `BigEndian`, which is no part of
-- the repository: reads and writes of two, four and eight bytes with their documented meaning.
mod Digits
unfoldable pub use Digits.*
use red_couch.Base.{ℕ, ◌<◌, ◌^◌, ◌≡◌, refl, Bytes, length}

-- What is read from a slice of that length, and what is stored in one.
pub record ByteOrder : Type 0 where
  pub read_u16 : Bytes → ℕ
  pub read_u32 : Bytes → ℕ
  pub read_u64 : Bytes → ℕ
  pub write_u16 : ℕ → Bytes
  pub write_u32 : ℕ → Bytes
  pub write_u64 : ℕ → Bytes
  pub read_u16_lem : (bs : Bytes) → length bs ≡ 2 → read_u16 bs ≡ of_be bs
  pub read_u32_lem : (bs : Bytes) → length bs ≡ 4 → read_u32 bs ≡ of_be bs
  pub read_u64_lem : (bs : Bytes) → length bs ≡ 8 → read_u64 bs ≡ of_be bs
  pub write_u16_lem : (n : ℕ) → n < 2 ^ 16 → write_u16 n ≡ to_be 2 n
  pub write_u32_lem : (n : ℕ) → n < 2 ^ 32 → write_u32 n ≡ to_be 4 n
  pub write_u64_lem : (n : ℕ) → n < 2 ^ 64 → write_u64 n ≡ to_be 8 n

-- An implementation, for the tests.
instance abbrev pub network_order : ByteOrder
network_order = record {
  read_u16 = of_be;
  read_u32 = of_be;
  read_u64 = of_be;
  write_u16 = to_be 2;
  write_u32 = to_be 4;
  write_u64 = to_be 8;
  read_u16_lem = λ bs h. refl;
  read_u32_lem = λ bs h. refl;
  read_u64_lem = λ bs h. refl;
  write_u16_lem = λ n h. refl;
  write_u32_lem = λ n h. refl;
  write_u64_lem = λ n h. refl;
}

module _ ⦃bo : ByteOrder⦄ where
  pub read_u16-to_be : (n : ℕ) → n < 2 ^ 16 → bo.read_u16 (to_be 2 n) ≡ n
  read_u16-to_be n h = rw (bo.read_u16_lem (to_be 2 n) (length-to_be 2 n)) (of_be-to_be 2 n h)

  pub read_u32-to_be : (n : ℕ) → n < 2 ^ 32 → bo.read_u32 (to_be 4 n) ≡ n
  read_u32-to_be n h = rw (bo.read_u32_lem (to_be 4 n) (length-to_be 4 n)) (of_be-to_be 4 n h)

  pub read_u64-to_be : (n : ℕ) → n < 2 ^ 64 → bo.read_u64 (to_be 8 n) ≡ n
  read_u64-to_be n h = rw (bo.read_u64_lem (to_be 8 n) (length-to_be 8 n)) (of_be-to_be 8 n h)
