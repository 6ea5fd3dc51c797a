-- ===== src/CString.antt =====
-- The C string functions that kbus/kbus_main.c calls, over the bytes of a string. The end of the
-- list is the terminating zero byte, and a zero byte inside it ends the string too.
use Prim.Native.Char.{code}
use Prim.Native.String.{String}
use kbus.Prelude.{
  ℕ, zero, suc, ◌/◌, ◌%◌, ◌≡◌, refl, Bool, true, false, List, [], ◌∷◌, ◌==◌, if◌then◌else◌, get_or,
}

abbrev pub byte_at : List ℕ → ℕ → ℕ
byte_at s i = get_or s i 0

unfoldable pub strlen : List ℕ → ℕ
strlen [] = 0
strlen (c ∷ s) = if c == 0 then 0 else suc (strlen s)

-- `strncmp(a, b, n) == 0`
unfoldable pub strncmp_eq : ℕ → List ℕ → List ℕ → Bool
strncmp_eq zero a b = true
strncmp_eq (suc n) [] [] = true
strncmp_eq (suc n) [] (d ∷ b) = d == 0
strncmp_eq (suc n) (c ∷ a) [] = c == 0
strncmp_eq (suc n) (c ∷ a) (d ∷ b) =
    if c == d then if c == 0 then true else strncmp_eq n a b else false

-- `strcmp(a, b) == 0`
unfoldable pub strcmp_eq : List ℕ → List ℕ → Bool
strcmp_eq [] [] = true
strcmp_eq [] (d ∷ b) = d == 0
strcmp_eq (c ∷ a) [] = c == 0
strcmp_eq (c ∷ a) (d ∷ b) = if c == d then if c == 0 then true else strcmp_eq a b else false

-- `strnchr(s, n, c) != NULL`
unfoldable pub strnchr_found : List ℕ → ℕ → ℕ → Bool
strnchr_found s zero c = false
strnchr_found [] (suc n) c = false
strnchr_found (d ∷ s) (suc n) c =
    if d == 0 then false else if d == c then true else strnchr_found s n c

-- The `n` bytes that `strncpy` writes.
unfoldable pub strncpy : List ℕ → ℕ → List ℕ
strncpy s zero = []
strncpy [] (suc n) = 0 ∷ strncpy [] n
strncpy (c ∷ s) (suc n) = c ∷ strncpy (if c == 0 then [] else s) n

-- The bytes of a string literal, which is ASCII.
abbrev pub codes : String → List ℕ
codes String.[] = []
codes (String.◌∷◌ c s) = code c ∷ codes s

-- The bytes of a u32, on a little-endian machine.
abbrev pub u32_bytes : ℕ → List ℕ
u32_bytes n = (n % 256) ∷ (n / 256 % 256) ∷ (n / 65536 % 256) ∷ (n / 16777216 % 256) ∷ []

strlen_stops : strlen (b'a' ∷ b'b' ∷ 0 ∷ b'c' ∷ []) ≡ 2
unfolding strlen
strlen_stops = refl
