-- ===== src/Word.antt =====
-- Rust's integer arithmetic on `u64` and `i64`: an overflow panics in a debug build and wraps in a
-- release build (the manifest sets no profile of its own).
use wide_log.Prelude.{
  ℕ, suc, ◌+◌, ◌-◌, ◌%◌, ◌^◌, ◌≤◌, ◌≡◌, refl, Option, none, some, arith, leb, true, false,
  if◌then◌else◌, Bool,
}
use wide_log.Prelude.Int.{ℤ, pos, negsuc, ◌+ℤ◌}

pub data Profile : Type 0 where
  debug release : Profile

-- What an overflow leaves: nothing, or the wrapped value.
abbrev pub overflow {ℓ} : {A : Type ℓ} → Profile → A → Option A
overflow debug wrapped = none
overflow release wrapped = some wrapped

abbrev pub u64_max : ℕ
u64_max = 2 ^ 64 - 1

abbrev pub i64_max : ℕ
i64_max = 2 ^ 63 - 1

-- The value ranges of the two types.
abbrev pub IsU64 : ℕ → Type 0
IsU64 n = n ≤ u64_max

abbrev pub IsI64 : ℤ → Type 0
IsI64 (pos n) = n ≤ i64_max
IsI64 (negsuc n) = n ≤ i64_max

abbrev pub fits_i64 : ℤ → Bool
fits_i64 (pos n) = leb n i64_max
fits_i64 (negsuc n) = leb n i64_max

-- The two's complement reading of a 64-bit pattern.
abbrev pub signed64 : ℕ → ℤ
signed64 w = if leb w i64_max then pos w else negsuc (2 ^ 64 - w - 1)

abbrev pub wrap_i64 : ℤ → ℤ
wrap_i64 (pos n) = signed64 (n % 2 ^ 64)
wrap_i64 (negsuc n) = signed64 (2 ^ 64 - n % 2 ^ 64 - 1)

-- `a + b` on `u64`
unfoldable pub add_u64 : Profile → ℕ → ℕ → Option ℕ
add_u64 p a b = if leb (a + b) u64_max then some (a + b) else overflow p ((a + b) % 2 ^ 64)

-- `a + b` on `i64`; `a - 1` is the sum with -1
unfoldable pub add_i64 : Profile → ℤ → ℤ → Option ℤ
add_i64 p a b = if fits_i64 (a +ℤ b) then some (a +ℤ b) else overflow p (wrap_i64 (a +ℤ b))

-- `u64::saturating_add_signed`
unfoldable pub saturating_add_signed : ℕ → ℤ → ℕ
saturating_add_signed u (pos n) = if leb (u + n) u64_max then u + n else u64_max
saturating_add_signed u (negsuc n) = u - suc n

pub add_i64-IsI64 :
    (p : Profile) (a b : ℤ) {c : ℤ} → IsI64 a → IsI64 b → add_i64 p a b ≡ some c → IsI64 c
unfolding add_i64
add_i64-IsI64 debug (pos a) (pos b) ha hb h = ground arith
add_i64-IsI64 debug (pos a) (negsuc b) ha hb h = ground arith
add_i64-IsI64 debug (negsuc a) (pos b) ha hb h = ground arith
add_i64-IsI64 debug (negsuc a) (negsuc b) ha hb h = ground arith
add_i64-IsI64 release (pos a) (pos b) ha hb h = ground arith
add_i64-IsI64 release (pos a) (negsuc b) ha hb h = ground arith
add_i64-IsI64 release (negsuc a) (pos b) ha hb h = ground arith
add_i64-IsI64 release (negsuc a) (negsuc b) ha hb h = ground arith

pub saturating_add_signed-IsU64 : (u : ℕ) (n : ℤ) → IsU64 u → IsU64 (saturating_add_signed u n)
unfolding saturating_add_signed
saturating_add_signed-IsU64 u (pos n) h = ground arith
saturating_add_signed-IsU64 u (negsuc n) h = omega arith

-- In a release build the arithmetic always has a result.
checked_release {ℓ} :
    {A : Type ℓ} (b : Bool) (x y : A)
    → (c : A) × ((if b then some x else overflow release y) ≡ some c)
checked_release true x y = (x, refl)
checked_release false x y = (y, refl)

pub add_u64-release : (a b : ℕ) → (c : ℕ) × (add_u64 release a b ≡ some c)
unfolding add_u64
add_u64-release a b = checked_release (leb (a + b) u64_max) (a + b) ((a + b) % 2 ^ 64)

pub add_i64-release : (a b : ℤ) → (c : ℤ) × (add_i64 release a b ≡ some c)
unfolding add_i64
add_i64-release a b = checked_release (fits_i64 (a +ℤ b)) (a +ℤ b) (wrap_i64 (a +ℤ b))
