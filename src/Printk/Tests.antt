-- ===== src/Printk/Tests.antt =====
-- Runs of src/kernel/main/printk.c, its own self-tests among them, and the theorems applied to
-- concrete input. The characters are their codes.
use homemade_os.Base.{ℕ, ◌≡◌, refl, false, some, List, [], ◌∷◌, ◌++◌, arith}
use homemade_os.Text.{isspace}
use homemade_os.Printk.Number.{unsigned_to_string, string_to_unsigned, string_to_signed}
use homemade_os.Printk.Format.{PrintfArg, parse_printf_arg}
use homemade_os.Printk.Print.{int, text, print_handler, done, snprintf}
use homemade_os.Printk.Scan.{number, text, sscanf}
use homemade_os.Printk.Exchange.Decimal.{snprintf-sscanf}

-- `sscanf("+15-f", "%u%x", &a, &b)` gives 15 and -15.
self_test_signs :
    sscanf 5 (43 ∷ 49 ∷ 53 ∷ 45 ∷ 102 ∷ []) (37 ∷ 117 ∷ 37 ∷ 120 ∷ [])
    ≡ some (2, number 15 ∷ number 4294967281 ∷ [])
unfolding sscanf parse_printf_arg string_to_signed isspace string_to_unsigned
self_test_signs = refl

-- `sscanf("123 456", "%d%n456", &a, &b)` stops at the space.
self_test_count :
    sscanf 8 (49 ∷ 50 ∷ 51 ∷ 32 ∷ 52 ∷ 53 ∷ 54 ∷ []) (37 ∷ 100 ∷ 37 ∷ 110 ∷ 52 ∷ 53 ∷ 54 ∷ [])
    ≡ some (1, number 123 ∷ number 3 ∷ [])
unfolding sscanf parse_printf_arg string_to_signed isspace string_to_unsigned
self_test_count = refl

-- An empty buffer counts as a conversion, and nothing is stored.
empty_is_counted : sscanf 3 [] (37 ∷ 100 ∷ []) ≡ some (1, [])
unfolding sscanf parse_printf_arg string_to_signed isspace string_to_unsigned
empty_is_counted = refl

-- `snprintf` of `%x` and a string into 4 bytes cuts the text, and writes no terminator.
cut_output :
    snprintf 6 4 (37 ∷ 120 ∷ 58 ∷ 37 ∷ 115 ∷ []) (int 171 ∷ text (65 ∷ 66 ∷ []) ∷ [])
    ≡ done record { failed = false; chars = 97 ∷ 98 ∷ 58 ∷ 65 ∷ []; stored = [] }
unfolding snprintf parse_printf_arg print_handler unsigned_to_string
cut_output = refl

-- The smallest `long long`, which is its own negation.
long_arg : PrintfArg
long_arg = record { print_count = 0; width = 0; pad0 = false; l_count = 2; base = 0 }

-- 192.168.100.255
snprintf-sscanf_example :
    (s : List ℕ) × (snprintf 3 40 (37 ∷ 100 ∷ []) (int 4294967291 ∷ [])
      ≡ done record { failed = false; chars = s ++ (0 ∷ []); stored = [] })
    × (sscanf 3 s (37 ∷ 100 ∷ []) ≡ some (1, number 4294967291 ∷ []))
snprintf-sscanf_example = snprintf-sscanf 4294967291 40 (omega arith) (omega arith) (omega arith)
