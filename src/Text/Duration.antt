-- ===== src/Text/Duration.antt =====
-- The `Debug` text of a `Duration` of whole milliseconds, and that of a signed integer.
use petty.Shared.{ℕ, suc, ◌+◌, ◌/◌, ◌%◌, [], ◌∷◌, ◌++◌, leb, ◌==◌, if◌then◌else◌}
use petty.Shared.Int.{ℤ, pos, negsuc}
use petty.Text.{Str, lit}
use petty.Text.Decimal.{decimal}

-- The thousandths behind the seconds, without trailing zeros.
thousandths : ℕ → Str
thousandths n =
    if n == 0
    then []
    else if n % 100 == 0
    then lit "." ++ (48 + n / 100) ∷ []
    else if n % 10 == 0
    then lit "." ++ (48 + n / 100) ∷ (48 + n / 10 % 10) ∷ []
    else lit "." ++ (48 + n / 100) ∷ (48 + n / 10 % 10) ∷ (48 + n % 10) ∷ []

unfoldable pub debug_millis : ℕ → Str
unfolding thousandths
debug_millis ms =
    if leb 1000 ms
    then decimal (ms / 1000) ++ thousandths (ms % 1000) ++ lit "s"
    else if leb 1 ms
    then decimal ms ++ lit "ms"
    else lit "0ns"

-- `Display` of an i32.
unfoldable pub show_int : ℤ → Str
show_int (pos n) = decimal n
show_int (negsuc n) = lit "-" ++ decimal (suc n)
