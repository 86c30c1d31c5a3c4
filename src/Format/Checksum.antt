-- ===== src/Format/Checksum.antt =====
-- The crate crc32fast, which src/format/envelope.rs calls: the checksum of a slice, and a hasher
-- that is fed in pieces. It is no code of this repository, so it is a parameter.
use ripindex.Common.{ℕ, ◌+◌, ◌%◌, ◌^◌, ◌<◌, ◌≡◌, refl, [], ◌∷◌, ◌++◌, arith}
use ripindex.Format.{Bytes}

pub record Crc32 : Type 1 where
  pub hash : Bytes → ℕ
  pub Hasher : Type 0
  pub new : Hasher
  pub update : Hasher → Bytes → Hasher
  pub finalize : Hasher → ℕ
  -- What a hasher was fed so far.
  pub Fed : Hasher → Bytes → Type 0
  pub hash-lt : (b : Bytes) → hash b < 2 ^ 32
  pub new-Fed : Fed new []
  pub update-Fed : (h : Hasher) (b more : Bytes) → Fed h b → Fed (update h more) (b ++ more)
  pub finalize-Fed : (h : Hasher) (b : Bytes) → Fed h b → finalize h ≡ hash b

-- A checksum that meets these laws: the sum of the bytes.
unfoldable pub byte_sum : Bytes → ℕ
byte_sum [] = 0
byte_sum (b ∷ bs) = (b + byte_sum bs) % 2 ^ 32

pub byte_sum-lt : (b : Bytes) → byte_sum b < 2 ^ 32
unfolding byte_sum
byte_sum-lt [] = omega arith
byte_sum-lt (b ∷ bs) = omega arith

pub byte_sum-nil : 0 ≡ byte_sum []
unfolding byte_sum
byte_sum-nil = refl

pub byte_sum-append : (xs ys : Bytes) → byte_sum (xs ++ ys) ≡ (byte_sum xs + byte_sum ys) % 2 ^ 32
unfolding byte_sum
byte_sum-append [] ys = omega (arith, byte_sum-lt ys)
byte_sum-append (x ∷ xs) ys = omega (arith, byte_sum-append xs ys)

pub sum_update :
    (h : ℕ) (b more : Bytes) → h ≡ byte_sum b → (h + byte_sum more) % 2 ^ 32 ≡ byte_sum (b ++ more)
sum_update h b more e = omega (arith, byte_sum-append b more)

abbrev pub sum32 : Crc32
sum32 = record {
  hash = byte_sum;
  Hasher = ℕ;
  new = 0;
  update = λ h more. (h + byte_sum more) % 2 ^ 32;
  finalize = λ h. h;
  Fed = λ h b. h ≡ byte_sum b;
  hash-lt = byte_sum-lt;
  new-Fed = byte_sum-nil;
  update-Fed = sum_update;
  finalize-Fed = λ h b e. e;
}
