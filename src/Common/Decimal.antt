-- ===== src/Common/Decimal.antt =====
-- `str::parse` for the unsigned integers of Rust: an optional `+`, then decimal digits, with an
-- error on overflow.
pub mod Reading
use Prim.Native.Nat.{ℕ, zero, suc, ◌+◌, ◌*◌, ◌-◌, ◌^◌, ◌/◌, ◌%◌, ◌≤◌}
use mathlib.Core.Path.{◌≡◌, refl}
use native.Mathlib.Omega.{arith}
use mathlib.Core.Bool.{◌&&◌}
use mathlib.Core.List.{[], ◌∷◌, ◌++◌}
use mathlib.Core.Option.{Option, none, some}
use zed_codex_acp_cas.Common.Tests.{ltb, ◌==◌, if◌then◌else◌}
use zed_codex_acp_cas.Common.Text.{Text, is_ascii_digit}

-- The digits behind those that make up `acc`; `limit` is the first number that is too large.
unfoldable pub parse_digits : ℕ → ℕ → Text → Option ℕ
parse_digits limit acc [] = some acc
parse_digits limit acc (c ∷ cs) =
    let next = acc * 10 + (c - b'0') in
    let rest = parse_digits limit next cs in
    if is_ascii_digit c && ltb next limit then rest else none

unfoldable pub parse_nonempty : ℕ → Text → Option ℕ
unfolding parse_digits
parse_nonempty limit [] = none
parse_nonempty limit (c ∷ cs) = parse_digits limit 0 (c ∷ cs)

unfoldable pub parse_unsigned : ℕ → Text → Option ℕ
unfolding parse_nonempty
parse_unsigned limit [] = none
parse_unsigned limit (c ∷ cs) =
    if c == b'+' then parse_nonempty limit cs else parse_nonempty limit (c ∷ cs)

abbrev pub parse_usize : Text → Option ℕ
parse_usize = parse_unsigned (2 ^ 64)

abbrev pub parse_u32 : Text → Option ℕ
parse_u32 = parse_unsigned (2 ^ 32)

abbrev pub parse_u64 : Text → Option ℕ
parse_u64 = parse_unsigned (2 ^ 64)

-- `to_string` of an unsigned integer; a number has no more digits than it counts, so the number
-- itself is enough fuel.
unfoldable pub show_from : ℕ → ℕ → Text
show_from zero n = (b'0' + n % 10) ∷ []
show_from (suc fuel) n =
    let front = show_from fuel (n / 10) in
    if ltb n 10 then (b'0' + n) ∷ [] else front ++ (b'0' + n % 10) ∷ []

unfoldable pub show : ℕ → Text
unfolding show_from
show n = show_from n n

unfoldable pub value_from : ℕ → Text → ℕ
value_from acc [] = acc
value_from acc (c ∷ cs) = value_from (acc * 10 + (c - b'0')) cs

value-snoc :
    (acc c : ℕ) (cs : Text) → value_from acc (cs ++ c ∷ []) ≡ value_from acc cs * 10 + (c - b'0')
unfolding value_from
value-snoc acc c [] = refl
value-snoc acc c (d ∷ ds) = value-snoc (acc * 10 + (d - b'0')) c ds

value-show_from : (fuel n : ℕ) → n ≤ fuel → value_from 0 (show_from fuel n) ≡ n
unfolding value_from show_from
value-show_from zero n le = omega arith
value-show_from (suc fuel) n le =
    ground
      (arith, value-snoc 0 (b'0' + n % 10) (show_from fuel (n / 10)), value-show_from fuel (n / 10))

-- A number is shown by digits that have its value.
pub value-show : (n : ℕ) → value_from 0 (show n) ≡ n
unfolding show
value-show n = value-show_from n n (omega arith)
