-- ===== src/Messagist/Bin/Bytes.antt =====
-- Little-endian bytes, and the loop that trims them.
use mangle_apis.Base.{
  ℕ, zero, suc, ◌+◌, ◌-◌, ◌*◌, ◌/◌, ◌^◌, ◌≤◌, ◌<◌, ◌≡◌, refl, ap, ◌⊎◌, inl, inr, false, List, ◌++◌,
  arith, Bool-cases, ltb, ltb→lt, length, get_or, take, drop, replicate, length-append,
  length-replicate, length-take, take-append-drop, drop-get_or, append-nil,
}
use native.Mathlib.Nat.{pow-suc}
use mangle_apis.Messagist.Bin.{to_le_bytes, from_le_bytes, resize, trim_loop}

pub length-to_le_bytes : (k n : ℕ) → length (to_le_bytes k n) ≡ k
unfolding to_le_bytes
length-to_le_bytes zero n = refl
length-to_le_bytes (suc k) n = ap suc (length-to_le_bytes k (n / 256))

pub from_le_bytes-replicate : (k : ℕ) → from_le_bytes (replicate k 0) ≡ 0
unfolding from_le_bytes
from_le_bytes-replicate zero = refl
from_le_bytes-replicate (suc k) = omega (arith, from_le_bytes-replicate k)

-- Reading the bytes of a number gives it back, when the number fits.
pub from-to_le_bytes : (k n : ℕ) → n < 256 ^ k → from_le_bytes (to_le_bytes k n) ≡ n
unfolding to_le_bytes from_le_bytes
from-to_le_bytes zero n h = omega arith
from-to_le_bytes (suc k) n h =
    let fits : n < 256 ^ k * 256 = rw (pow-suc) at h in
    omega (arith, from-to_le_bytes k (n / 256) (omega arith))

-- A byte that is not zero bounds the number from below.
pub pow-le_of_byte : (k n i : ℕ) → 0 < get_or (to_le_bytes k n) i 0 → 256 ^ i ≤ n
unfolding to_le_bytes
pow-le_of_byte zero n i h = absurd (omega arith)
pow-le_of_byte (suc k) n zero h = omega arith
pow-le_of_byte (suc k) n (suc i) h = rw pow-suc (omega (arith, pow-le_of_byte k (n / 256) i h))

length-resize : (v : List ℕ) (n : ℕ) → n ≤ length v → length (resize v n 0) ≡ n
unfolding resize
length-resize v n h = omega (
  arith,
  length-append (take n v) (replicate (n - length v) 0),
  length-take n v h,
  length-replicate {A = ℕ} (n - length v) 0,
)

resize-take : (v : List ℕ) (n : ℕ) → n ≤ length v → resize v n 0 ≡ take n v
unfolding resize
resize-take v n h = let none_left : n - length v ≡ 0 = omega arith in rw (none_left, append-nil)

zero_before :
    (i : ℕ) (v : List ℕ)
    → suc i ≤ length v
    → drop (suc i) v ≡ replicate (length v - suc i) 0
    → ltb 0 (get_or v i 0) ≡ false
    → drop i v ≡ replicate (length v - i) 0
zero_before i v h e zeroed =
    let byte : get_or v i 0 ≡ 0 = ground arith in
    let more : length v - i ≡ suc (length v - suc i) = omega arith in
    rw (drop-get_or i v 0 h, byte, e, more) refl

-- What the loop cuts off is zeroes only, so filling up with zeroes gives the vector back.
pub trim_loop-append :
    (i : ℕ) (v : List ℕ)
    → i ≤ length v
    → drop i v ≡ replicate (length v - i) 0
    → trim_loop i v ++ replicate (length v - length (trim_loop i v)) 0 ≡ v
unfolding trim_loop
trim_loop-append zero v h e =
    let nothing : length v - length v ≡ 0 = omega arith in rw (nothing, append-nil)
trim_loop-append (suc i) v h e = elim (Bool-cases (ltb 0 (get_or v i 0))) [
  | inl found ↦
      let next : i + 1 ≡ suc i = omega arith in
      rw (found, next, length-resize v (suc i) h, resize-take v (suc i) h, ← e)
        (take-append-drop (suc i) v)
  | inr zeroed ↦ rw zeroed (trim_loop-append i v (omega arith) (zero_before i v h e zeroed))
]

-- The loop leaves a vector of zeroes alone, and otherwise ends at the last byte that is not zero.
pub length-trim_loop :
    (i : ℕ) (v : List ℕ)
    → i ≤ length v
    → drop i v ≡ replicate (length v - i) 0
    → ((v ≡ replicate (length v) 0) × (trim_loop i v ≡ v))
      ⊎ ((j : ℕ) × (length (trim_loop i v) ≡ suc j) × (j < length v) × (0 < get_or v j 0))
unfolding trim_loop
length-trim_loop zero v h e =
    let nothing : length v - 0 ≡ length v = omega arith in inl (rw nothing at e, refl)
length-trim_loop (suc i) v h e = elim (Bool-cases (ltb 0 (get_or v i 0))) [
  | inl found ↦
      let next : i + 1 ≡ suc i = omega arith in
      inr (i, rw (found, next) (length-resize v (suc i) h), h, ltb→lt _ _ found)
  | inr zeroed ↦ rw zeroed (length-trim_loop i v (omega arith) (zero_before i v h e zeroed))
]
