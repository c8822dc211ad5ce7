-- ===== src/Xxhash/Primitives/Laws.antt =====
-- The loads of xxhash/primitives.rs return inside their slices, and the avalanches return `u64` values.
use hashcodecs_rs.Common.{
  ℕ, zero, suc, ◌+◌, ◌/◌, ◌^◌, ◌≤◌, ◌<◌, ◌≡◌, refl, Option, some, Bool, true, false, ◌&&◌, List, [],
  ◌∷◌, ◌>>=◌, leb, if◌then◌else◌, get_elem?, length, arith, Returns, Returns-bind,
}
use hashcodecs_rs.Word.{IsU64, bit_xor-lt, xor_shift}
use hashcodecs_rs.Xxhash.Primitives.{
  secret, read_u32_le, read_u64_le, read_u64_le_ptr, xxh3_avalanche, xxh64_avalanche, rrmxmx,
  mix16_ptr, mix16,
}

-- The code returns.
abbrev pub Total : {A : Type 0} → Option A → Type 0
Total {A} m = Returns (λ (a : A). Unit {0}) m

pub total : {A : Type 0} (a : A) → Total (some a)
total a = record { value = a; runs = refl; holds = tt }

pub both :
    {A B : Type 0} {m : Option A} {f : A → Option B}
    → Total m
    → ((a : A) → Total (f a))
    → Total (m >>= f)
both r k = Returns-bind r λ a h. k a

pub either :
    {A : Type 0} (P : A → Type 0) (b : Bool) {x y : Option A}
    → (b ≡ true → Returns P x)
    → (b ≡ false → Returns P y)
    → Returns P (if b then x else y)
either P true first second = first refl
either P false first second = second refl

pub get-Total : (xs : List ℕ) (i : ℕ) → i < length xs → Total (get_elem? xs i)
get-Total [] i h = absurd (omega arith)
get-Total (x ∷ xs) zero h = total x
get-Total (x ∷ xs) (suc i) h = get-Total xs i (omega arith)

pub read_u32_le-Total :
    (input : List ℕ) (offset : ℕ) → offset + 4 ≤ length input → Total (read_u32_le input offset)
unfolding read_u32_le
read_u32_le-Total input offset h = both (get-Total input offset (omega arith)) λ b0.
    both (get-Total input (offset + 1) (omega arith)) λ b1.
      both (get-Total input (offset + 2) (omega arith))
        λ b2. both (get-Total input (offset + 3) (omega arith)) λ b3. total _

pub read_u64_le-Total :
    (input : List ℕ) (offset : ℕ) → offset + 8 ≤ length input → Total (read_u64_le input offset)
unfolding read_u64_le
read_u64_le-Total input offset h =
    both (read_u32_le-Total input offset (omega arith))
      λ low. both (read_u32_le-Total input (offset + 4) (omega arith)) λ high. total _

pub read_u64_le_ptr-Total :
    (input : List ℕ) (offset : ℕ) → offset + 8 ≤ length input → Total (read_u64_le_ptr input offset)
unfolding read_u64_le_ptr
read_u64_le_ptr-Total = read_u64_le-Total

pub mix16_ptr-Total :
    (bytes : List ℕ) (i : ℕ) (keys : List ℕ) (j seed : ℕ)
    → i + 16 ≤ length bytes
    → j + 16 ≤ length keys
    → Total (mix16_ptr bytes i keys j seed)
unfolding mix16_ptr
mix16_ptr-Total bytes i keys j seed h g =
    both (read_u64_le_ptr-Total bytes i (omega arith)) λ data_lo.
      both (read_u64_le_ptr-Total bytes (i + 8) (omega arith)) λ data_hi.
        both (read_u64_le_ptr-Total keys j (omega arith))
          λ secret_lo. both (read_u64_le_ptr-Total keys (j + 8) (omega arith)) λ secret_hi. total _

pub mix16-Total :
    (bytes : List ℕ) (i : ℕ) (keys : List ℕ) (j seed : ℕ)
    → i + 16 ≤ length bytes
    → j + 16 ≤ length keys
    → Total (mix16 bytes i keys j seed)
unfolding mix16
mix16-Total bytes i keys j seed h g =
    either (λ v. Unit {0}) (leb (i + 16) (length bytes) && leb (j + 16) (length keys))
      (λ e. mix16_ptr-Total bytes i keys j seed h g) (λ e. absurd (ground arith))

xor_shift-IsU64 : (k x : ℕ) → IsU64 x → x / 2 ^ k ≤ x → IsU64 (xor_shift x k)
xor_shift-IsU64 k x h l = bit_xor-lt 64 x (x / 2 ^ k) h (omega arith)

pub xxh3_avalanche-IsU64 : (h : ℕ) → IsU64 (xxh3_avalanche h)
unfolding xxh3_avalanche
xxh3_avalanche-IsU64 h = xor_shift-IsU64 32 _ (omega arith) (omega arith)

pub xxh64_avalanche-IsU64 : (h : ℕ) → IsU64 (xxh64_avalanche h)
unfolding xxh64_avalanche
xxh64_avalanche-IsU64 h = xor_shift-IsU64 32 _ (omega arith) (omega arith)

pub rrmxmx-IsU64 : (h len : ℕ) → IsU64 (rrmxmx h len)
unfolding rrmxmx
rrmxmx-IsU64 h len = xor_shift-IsU64 28 _ (omega arith) (omega arith)

pub length-secret : length secret ≡ 192
unfolding secret
length-secret = refl
