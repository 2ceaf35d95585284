-- ===== src/Utils/Numbers.antt =====
-- src/utils/id.ts. The clock's reading and the random number, below 100000 or 1000000, are
-- arguments.
use Prim.Native.String.{◌++◌ as str_append}
use jtfp_cloudrun.Base.{ℕ, String}
use jtfp_cloudrun.Js.Text.{print_ℕ, pad_start}

-- genOrderNo
unfoldable pub gen_order_no : String → ℕ → ℕ → String
gen_order_no prefix now random = str_append prefix (str_append (print_ℕ now) (pad_start random 5))

-- genOutTradeNo
unfoldable pub gen_out_trade_no : String → ℕ → ℕ → String
gen_out_trade_no prefix now random =
    str_append prefix (str_append (print_ℕ now) (pad_start random 6))
