-- ===== src/Prelude/Checks.antt =====
-- What Go prints and computes, on a few inputs.
use Prim.Native.Nat.{◌-◌, ◌^◌}
use mathlib.Core.Path.{◌≡◌, refl}
use resolution.Prelude.Int.{pos, negsuc, wrap64}
use resolution.Prelude.Text.{quote, sprintf}

sprintf_escape : sprintf "a%2Fb 100% c%%" ≡ "a%!F(MISSING)b 100%!c(MISSING)%"
unfolding sprintf
sprintf_escape = refl

quote_newline : quote "a\"b\n" ≡ "\"a\\\"b\\n\""
unfolding quote
quote_newline = refl

wrap64_max : wrap64 (pos (2 ^ 63)) ≡ negsuc (2 ^ 63 - 1)
unfolding wrap64
wrap64_max = refl
