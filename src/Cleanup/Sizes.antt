-- ===== src/Cleanup/Sizes.antt =====
-- The sizes that `humanizeBytes` (api/handlers/cleanup_handlers.go) writes.
use Prim.Native.Nat.{◌^◌}
use Prim.Native.Char.{Char}
use text.Mathlib.Text.{char_at?}
use dd_ui.Prelude.{
  ℕ, zero, suc, ◌*◌, ◌/◌, ◌≤◌, ◌<◌, ◌≡◌, refl, some, ltb, arith, Bool-cases, inl, inr,
}
use dd_ui.Cleanup.Output.{scale, Size, in_bytes, in_units, humanize_bytes}

-- A size says how many bytes there are: under 1024 by their number, and else by a power of 1024 with the
-- letter of its exponent, the greatest one that is not more.
abbrev pub Fits : ℕ → Size → Type 0
Fits bytes (in_bytes n) = (n ≡ bytes) × (n < 1024)
Fits bytes (in_units n div letter) =
    (n ≡ bytes)
    × (div ≤ bytes)
    × (bytes < 1024 * div)
    × ((exp : ℕ) × (div ≡ 1024 ^ suc exp)
        × ((c : Char) × (char_at? "KMGTPE" exp ≡ some c) × (letter ≡ some c)))

scale_bounds :
    (bytes : ℕ)
    → 1024 ≤ bytes
    → bytes < 9223372036854775808
    → ((scale 6 (bytes / 1024) 1024 0).0 < 1024)
      × ((scale 6 (bytes / 1024) 1024 0).1 ≤ bytes)
      × (bytes < 1024 * (scale 6 (bytes / 1024) 1024 0).1)
unfolding scale
scale_bounds bytes lo hi = ground arith

scale_unit :
    (bytes : ℕ)
    → bytes < 9223372036854775808
    → ((scale 6 (bytes / 1024) 1024 0).1 ≡ 1024 ^ suc (scale 6 (bytes / 1024) 1024 0).2)
      × ((scale 6 (bytes / 1024) 1024 0).2 ≤ 5)
unfolding scale
scale_unit bytes hi = ground arith

-- No exponent up to 5 is out of range of the letters.
letter : (exp : ℕ) → exp ≤ 5 → (c : Char) × (char_at? "KMGTPE" exp ≡ some c)
letter zero h = (_, refl)
letter (suc zero) h = (_, refl)
letter (suc (suc zero)) h = (_, refl)
letter (suc (suc (suc zero))) h = (_, refl)
letter (suc (suc (suc (suc zero)))) h = (_, refl)
letter (suc (suc (suc (suc (suc zero))))) h = (_, refl)
letter (suc (suc (suc (suc (suc (suc exp)))))) h = absurd (omega (arith, h))

-- Every size of an int64 that is not negative is written right: under 1024 as it is, and else over the
-- greatest power of 1024 that is not more, with the letter of that power; the loop ends within six turns,
-- its divisor does not overflow, and the letter is never out of range.
pub humanize_bytes_lem :
    (bytes : ℕ) → bytes < 9223372036854775808 → Fits bytes (humanize_bytes bytes)
unfolding humanize_bytes
humanize_bytes_lem bytes hi = elim (Bool-cases (ltb bytes 1024)) [
  | inl e ↦ rw (e, humanize_bytes) (refl, ground arith)
  | inr e ↦
      let (ends, low, high) = scale_bounds bytes (ground arith) hi in
      let (power, range) = scale_unit bytes hi in
      let (c, at) = letter (scale 6 (bytes / 1024) 1024 0).2 range in
      rw (e, humanize_bytes)
        (refl, low, high, ((scale 6 (bytes / 1024) 1024 0).2, power, (c, at, at)))
]
