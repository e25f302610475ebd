-- ===== src/Common/Machine.antt =====
-- Machine integers of the 64-bit target, checked access to a byte buffer, and counted loops whose
-- body may panic.
use Prim.Native.Nat.{ℕ, zero, suc, ◌+◌, ◌-◌, ◌%◌, ◌^◌, ◌≤◌, ◌<◌}
use mathlib.Core.Path.{◌≡◌, refl}
use mathlib.Core.Bool.{Bool, ◌&&◌}
use mathlib.Core.Option.{Option, none, some}
use native.Mathlib.Omega.{arith}
use digital_garden_visitor_c.Common.Tests.{if◌then◌else◌, ltb}
use digital_garden_visitor_c.Common.Lists.{length, set, replicate}
use digital_garden_visitor_c.Common.Strings.{Bytes}
use digital_garden_visitor_c.Common.Results.{◌>>=◌}

-- A `u64` or `usize`. Sums and products wrap, so one reduction of the whole expression gives what
-- a reduction at each step gives.
abbrev pub u64 : ℕ → ℕ
u64 n = n % 2 ^ 64

-- `a as isize - b as isize`, as its 64-bit pattern.
abbrev pub isize_sub : ℕ → ℕ → ℕ
isize_sub a b = (a + 2 ^ 64 - b) % 2 ^ 64

-- `n > 0`, of the `isize` with the pattern `n`.
abbrev pub isize_pos : ℕ → Bool
isize_pos n = ltb 0 n && ltb n (2 ^ 63)

-- `vec![0; n]`, which panics where the capacity passes `isize::MAX`.
unfoldable pub zeroed : ℕ → Option Bytes
zeroed n = if ltb n (2 ^ 63) then some (replicate n 0) else none

-- `buffer[i] = v`, with the bounds check of the index.
unfoldable pub store_at : Bytes → ℕ → ℕ → Option Bytes
store_at buffer i v = if ltb i (length buffer) then some (set buffer i v) else none

-- `for k in i..i + n { … }`, with a body that may panic.
unfoldable pub for_range {ℓ} : {S : Type ℓ} → ℕ → ℕ → (ℕ → S → Option S) → S → Option S
for_range zero i body s = some s
for_range (suc n) i body s = body i s >>= for_range n (i + 1) body

-- The loop ends without a panic and with its invariant, if each round does so.
pub for_range_inv {ℓ κ} :
    {S : Type ℓ} (P : ℕ → S → Type κ) (body : ℕ → S → Option S) (n i j : ℕ) (s : S)
    → i + n ≡ j
    → ((k : ℕ) (t : S) → i ≤ k → k < j → P k t → (t' : S) × (body k t ≡ some t') × P (k + 1) t')
    → P i s
    → (s' : S) × (for_range n i body s ≡ some s') × P j s'
unfolding for_range
for_range_inv P body zero i j s e keep h = let e' : i ≡ j = omega arith in (s, refl, rw (← e') h)
for_range_inv P body (suc n) i j s e keep h =
    let (t, run, p) = keep i s (omega arith) (omega arith) h in
    let (s', rest, q) =
      for_range_inv P body n (i + 1) j t (omega arith) (λ k u lo hi. keep k u (omega arith) hi) p in
    (s', rw (run, rest), q)
