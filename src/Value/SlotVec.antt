-- ===== src/Value/SlotVec.antt =====
-- The vector of optional values inside an event, with the operations that wide_event.rs uses on it.
use wide_log.Prelude.{
  ℕ, zero, suc, ◌+◌, ◌≤◌, ◌<◌, ◌≡◌, refl, ap, Bool, true, false, Option, none, some, arith, ◌==◌,
  if◌then◌else◌,
}
use wide_log.Value.{Value, Slots, end, vacant, filled}

-- `values.len()`
abbrev pub length : Slots → ℕ
length end = 0
length (vacant s) = suc (length s)
length (filled v s) = suc (length s)

-- What `values[i]` holds; nothing out of range, as `values.get(i)` and the guard `i < len` have it.
abbrev pub get : Slots → ℕ → Option Value
get end i = none
get (vacant s) zero = none
get (vacant s) (suc i) = get s i
get (filled v s) zero = some v
get (filled v s) (suc i) = get s i

-- `values[i] = Some(v)`; out of range, where the source would panic, nothing changes.
abbrev pub set : Slots → ℕ → Value → Slots
set end i v = end
set (vacant s) zero v = filled v s
set (vacant s) (suc i) v = vacant (set s i v)
set (filled w s) zero v = filled v s
set (filled w s) (suc i) v = filled w (set s i v)

-- `values.resize(n, None)`
abbrev pub resize : ℕ → Slots → Slots
resize zero s = end
resize (suc n) end = vacant (resize n end)
resize (suc n) (vacant s) = vacant (resize n s)
resize (suc n) (filled v s) = filled v (resize n s)

abbrev pub is_none : Option Value → Bool
is_none none = true
is_none (some v) = false

-- The number of `Some` slots, which `present_count` is to cache.
abbrev pub count : Slots → ℕ
count end = 0
count (vacant s) = count s
count (filled v s) = suc (count s)

pub length-resize : (n : ℕ) (s : Slots) → length (resize n s) ≡ n
length-resize zero s = refl
length-resize (suc n) end = ap suc (length-resize n end)
length-resize (suc n) (vacant s) = ap suc (length-resize n s)
length-resize (suc n) (filled v s) = ap suc (length-resize n s)

pub get-resize : (n : ℕ) (s : Slots) (i : ℕ) → length s ≤ n → get (resize n s) i ≡ get s i
get-resize zero end i h = refl
get-resize zero (vacant s) i h = absurd (omega arith)
get-resize zero (filled v s) i h = absurd (omega arith)
get-resize (suc n) end zero h = refl
get-resize (suc n) end (suc i) h = get-resize n end i (omega arith)
get-resize (suc n) (vacant s) zero h = refl
get-resize (suc n) (vacant s) (suc i) h = get-resize n s i (omega arith)
get-resize (suc n) (filled v s) zero h = refl
get-resize (suc n) (filled v s) (suc i) h = get-resize n s i (omega arith)

pub count-resize : (n : ℕ) (s : Slots) → length s ≤ n → count (resize n s) ≡ count s
count-resize zero end h = refl
count-resize zero (vacant s) h = absurd (omega arith)
count-resize zero (filled v s) h = absurd (omega arith)
count-resize (suc n) end h = count-resize n end (omega arith)
count-resize (suc n) (vacant s) h = count-resize n s (omega arith)
count-resize (suc n) (filled v s) h = ap suc (count-resize n s (omega arith))

pub length-set : (s : Slots) (i : ℕ) (v : Value) → length (set s i v) ≡ length s
length-set end i v = refl
length-set (vacant s) zero v = refl
length-set (vacant s) (suc i) v = ap suc (length-set s i v)
length-set (filled w s) zero v = refl
length-set (filled w s) (suc i) v = ap suc (length-set s i v)

-- A write in range, in one equation.
pub get-set :
    (s : Slots) (i j : ℕ) (v : Value)
    → i < length s
    → get (set s i v) j ≡ (if i == j then some v else get s j)
get-set end i j v h = absurd (omega arith)
get-set (vacant s) zero zero v h = refl
get-set (vacant s) zero (suc j) v h = ground arith
get-set (vacant s) (suc i) zero v h = ground arith
get-set (vacant s) (suc i) (suc j) v h = ground (arith, get-set s i j v (omega arith))
get-set (filled w s) zero zero v h = refl
get-set (filled w s) zero (suc j) v h = ground arith
get-set (filled w s) (suc i) zero v h = ground arith
get-set (filled w s) (suc i) (suc j) v h = ground (arith, get-set s i j v (omega arith))

-- A write to a vacant slot in range adds one to the count.
pub count-set :
    (s : Slots) (i : ℕ) (v : Value)
    → i < length s
    → count (set s i v) ≡ count s + (if is_none (get s i) then 1 else 0)
count-set end i v h = absurd (omega arith)
count-set (vacant s) zero v h = omega arith
count-set (vacant s) (suc i) v h = count-set s i v (omega arith)
count-set (filled w s) zero v h = omega arith
count-set (filled w s) (suc i) v h = omega (arith, count-set s i v (omega arith))
