-- ===== src/Murmur3/Primitives/Bijective.antt =====
-- The finalizers of murmur3/primitives.rs lose no information: each is injective on its words.
use hashcodecs_rs.Common.{ℕ, ◌/◌, ◌^◌, ◌≤◌, ◌≡◌, ◌↔◌, ap, ◌∙◌, sym, arith}
use hashcodecs_rs.Word.{
  IsU32, IsU64, bit_xor, mul32, mul64, xor_shift, bit_xor-lt, bit_xor-zero, bit_xor_self,
  bit_xor-div, bit_xor_assoc,
}
use hashcodecs_rs.Murmur3.Primitives.{fmix32, fmix64}

-- `x ^ u ^ u` is `x`.
cancel : (x u : ℕ) → bit_xor (bit_xor x u) u ≡ x
cancel x u = bit_xor_assoc x u u ∙ (ap (bit_xor x) (bit_xor_self u) ∙ bit_xor-zero x)

-- A shift by at least half the width is its own inverse.
xor_shift-xor_shift : (k x : ℕ) → x / 2 ^ k / 2 ^ k ≡ 0 → xor_shift (xor_shift x k) k ≡ x
xor_shift-xor_shift k x h =
    let u = x / 2 ^ k in
    ap (bit_xor (bit_xor x u)) (bit_xor-div k x u ∙ (ap (bit_xor u) h ∙ bit_xor-zero u))
    ∙ cancel x u

unshift13 : ℕ → ℕ
unshift13 y = bit_xor (xor_shift y 13) (y / 2 ^ 26)

unshift13-xor_shift : (x : ℕ) → IsU32 x → unshift13 (xor_shift x 13) ≡ x
unfolding unshift13
unshift13-xor_shift x h =
    let u = x / 2 ^ 13 in
    let v = x / 2 ^ 26 in
    let y = xor_shift x 13 in
    let once : y / 2 ^ 13 ≡ bit_xor u v = bit_xor-div 13 x u ∙ ap (bit_xor u) (omega arith) in
    let none_left : u / 2 ^ 26 ≡ 0 = omega arith in
    let twice : y / 2 ^ 26 ≡ v = bit_xor-div 26 x u ∙ (ap (bit_xor v) none_left ∙ bit_xor-zero v) in
    let joined : bit_xor y (bit_xor u v) ≡ bit_xor x v =
      sym (bit_xor_assoc y u v) ∙ ap (λ t. bit_xor t v) (cancel x u) in
    ap (λ t. bit_xor (bit_xor y t) (y / 2 ^ 26)) once
    ∙ (ap (bit_xor (bit_xor y (bit_xor u v))) twice ∙ (ap (λ t. bit_xor t v) joined ∙ cancel x v))

unmul1 : (x : ℕ) → IsU32 x → mul32 (mul32 x 2246822507) 2781581891 ≡ x
unmul1 x h = omega arith

unmul2 : (x : ℕ) → IsU32 x → mul32 (mul32 x 3266489909) 2127672349 ≡ x
unmul2 x h = omega arith

unmul3 : (x : ℕ) → IsU64 x → mul64 (mul64 x 18397679294719823053) 5725274745694666757 ≡ x
unmul3 x h = omega arith

unmul4 : (x : ℕ) → IsU64 x → mul64 (mul64 x 14181476777654086739) 11291846944257947611 ≡ x
unmul4 x h = omega arith

xor_shift-IsU32 : (k x : ℕ) → IsU32 x → x / 2 ^ k ≤ x → IsU32 (xor_shift x k)
xor_shift-IsU32 k x h l = bit_xor-lt 32 x (x / 2 ^ k) h (omega arith)

xor_shift-IsU64 : (k x : ℕ) → IsU64 x → x / 2 ^ k ≤ x → IsU64 (xor_shift x k)
xor_shift-IsU64 k x h l = bit_xor-lt 64 x (x / 2 ^ k) h (omega arith)

pub fmix32-IsU32 : (x : ℕ) → IsU32 (fmix32 x)
unfolding fmix32
fmix32-IsU32 x = xor_shift-IsU32 16 _ (omega arith) (omega arith)

pub fmix64-IsU64 : (x : ℕ) → IsU64 (fmix64 x)
unfolding fmix64
fmix64-IsU64 x = xor_shift-IsU64 33 _ (omega arith) (omega arith)

-- Undoing the steps of a finalizer, the last one first.
module _ (shift : ℕ) (multiply1 middle multiply2 : ℕ → ℕ) where
  undo1 : ℕ → ℕ
  undo1 y = xor_shift y shift

  undo2 : ℕ → ℕ
  undo2 y = undo1 (multiply1 y)

  undo3 : ℕ → ℕ
  undo3 y = undo2 (middle y)

  undo4 : ℕ → ℕ
  undo4 y = undo3 (multiply2 y)

  undo5 : ℕ → ℕ
  undo5 y = undo4 (xor_shift y shift)

  undo :
      (x hash1 hash2 hash3 hash4 hash5 : ℕ)
      → xor_shift hash5 shift ≡ hash4
      → multiply2 hash4 ≡ hash3
      → middle hash3 ≡ hash2
      → multiply1 hash2 ≡ hash1
      → xor_shift hash1 shift ≡ x
      → undo5 hash5 ≡ x
  unfolding undo5 undo4 undo3 undo2 undo1
  undo x hash1 hash2 hash3 hash4 hash5 p5 p4 p3 p2 p1 =
      ap undo4 p5 ∙ (ap undo3 p4 ∙ (ap undo2 p3 ∙ (ap undo1 p2 ∙ p1)))

unmix32 : ℕ → ℕ
unmix32 = undo5 16 (λ y. mul32 y 2781581891) unshift13 (λ y. mul32 y 2127672349)

unmix64 : ℕ → ℕ
unmix64 =
    undo5 33 (λ y. mul64 y 5725274745694666757) (λ y. xor_shift y 33)
      (λ y. mul64 y 11291846944257947611)

unmix32-fmix32 : (x : ℕ) → IsU32 x → unmix32 (fmix32 x) ≡ x
unfolding unmix32 fmix32
unmix32-fmix32 x h =
    let hash1 = xor_shift x 16 in
    let hash2 = mul32 hash1 2246822507 in
    let hash3 = xor_shift hash2 13 in
    let hash4 = mul32 hash3 3266489909 in
    undo 16 (λ y. mul32 y 2781581891) unshift13 (λ y. mul32 y 2127672349) x hash1 hash2 hash3 hash4
      (xor_shift hash4 16) (xor_shift-xor_shift 16 hash4 (omega arith))
      (unmul2 hash3 (xor_shift-IsU32 13 hash2 (omega arith) (omega arith)))
      (unshift13-xor_shift hash2 (omega arith))
      (unmul1 hash1 (xor_shift-IsU32 16 x h (omega arith))) (xor_shift-xor_shift 16 x (omega arith))

unmix64-fmix64 : (x : ℕ) → IsU64 x → unmix64 (fmix64 x) ≡ x
unfolding unmix64 fmix64
unmix64-fmix64 x h =
    let hash1 = xor_shift x 33 in
    let hash2 = mul64 hash1 18397679294719823053 in
    let hash3 = xor_shift hash2 33 in
    let hash4 = mul64 hash3 14181476777654086739 in
    undo 33 (λ y. mul64 y 5725274745694666757) (λ y. xor_shift y 33)
      (λ y. mul64 y 11291846944257947611) x hash1 hash2 hash3 hash4 (xor_shift hash4 33)
      (xor_shift-xor_shift 33 hash4 (omega arith))
      (unmul4 hash3 (xor_shift-IsU64 33 hash2 (omega arith) (omega arith)))
      (xor_shift-xor_shift 33 hash2 (omega arith))
      (unmul3 hash1 (xor_shift-IsU64 33 x h (omega arith))) (xor_shift-xor_shift 33 x (omega arith))

-- For all u32 values x and y, if fmix32 maps them to the same value, they are equal.
pub fmix32-injective : (x y : ℕ) → IsU32 x → IsU32 y → fmix32 x ≡ fmix32 y → x ≡ y
fmix32-injective x y hx hy e = sym (unmix32-fmix32 x hx) ∙ (ap unmix32 e ∙ unmix32-fmix32 y hy)

-- For all u64 values x and y, if fmix64 maps them to the same value, they are equal.
pub fmix64-injective : (x y : ℕ) → IsU64 x → IsU64 y → fmix64 x ≡ fmix64 y → x ≡ y
fmix64-injective x y hx hy e = sym (unmix64-fmix64 x hx) ∙ (ap unmix64 e ∙ unmix64-fmix64 y hy)

-- For all u32 values x and y, fmix32 maps them to the same value exactly when they are equal, and
-- so does fmix64 for all u64 values.
pub finalizers-injective :
    (x y v w : ℕ)
    → IsU32 x
    → IsU32 y
    → IsU64 v
    → IsU64 w
    → ((fmix32 x ≡ fmix32 y) ↔ (x ≡ y)) × ((fmix64 v ≡ fmix64 w) ↔ (v ≡ w))
finalizers-injective x y v w hx hy hv hw =
    ((fmix32-injective x y hx hy, ap fmix32), (fmix64-injective v w hv hw, ap fmix64))
