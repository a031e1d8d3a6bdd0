-- ===== src/Text.antt =====
-- C strings as lists of bytes without the closing NUL, and the calls of the C library that the
-- program makes on them: strcmp, strtok, strstr, sprintf of a number.
pub mod Token
pub mod Decimal
use Prim.Native.Char.{code}
use Prim.Native.String.{String}
use premium.Base.{
  zero, suc, ◌<◌, ap, take, length, ==_ne, ℕ, Bool, true, false, List, [], ◌∷◌, ◌++◌, ◌≡◌, ◌≢◌,
  ◌&&◌, refl, arith, ◌==◌, ==_iff, ==_refl, if◌then◌else◌, All,
}

abbrev pub Bytes : Type 0
Bytes = List ℕ

-- The code points of a literal: its bytes, since every literal of the program is ASCII.
abbrev pub codes : String → Bytes
codes String.[] = []
codes (String.◌∷◌ c s) = code c ∷ codes s

-- `strcmp(s, t) == 0`
unfoldable pub str_eq : Bytes → Bytes → Bool
str_eq [] [] = true
str_eq [] (d ∷ t) = false
str_eq (c ∷ s) [] = false
str_eq (c ∷ s) (d ∷ t) = (c == d) && str_eq s t

pub str_eq_sound : (s t : Bytes) → str_eq s t ≡ true → s ≡ t
unfolding str_eq
str_eq_sound [] [] h = refl
str_eq_sound [] (d ∷ t) h = ground arith
str_eq_sound (c ∷ s) [] h = ground arith
str_eq_sound (c ∷ s) (d ∷ t) h = ground (arith, str_eq_sound s t)

pub str_eq_refl : (s : Bytes) → str_eq s s ≡ true
unfolding str_eq
str_eq_refl [] = refl
str_eq_refl (c ∷ s) = ground (arith, str_eq_refl s)

-- What a C string function reads of a buffer: the bytes before the first NUL.
unfoldable pub c_string : Bytes → Bytes
c_string [] = []
c_string (c ∷ s) = let rest = c ∷ c_string s in if c == 0 then [] else rest

-- `strncmp(prefix, s, strlen(prefix)) == 0`
unfoldable pub starts_with : Bytes → Bytes → Bool
starts_with [] s = true
starts_with (c ∷ p) [] = false
starts_with (c ∷ p) (d ∷ s) = (c == d) && starts_with p s

-- `strstr(s, p) != NULL`
unfoldable pub contains : Bytes → Bytes → Bool
unfolding starts_with
contains p [] = starts_with p []
contains p (c ∷ s) = let rest = contains p s in if starts_with p (c ∷ s) then true else rest

-- A byte string that a strtok of `d` takes as one token.
abbrev pub Lacks : ℕ → Bytes → Type 0
Lacks d = All (λ c. c ≢ d)

abbrev pub Token : ℕ → Bytes → Type 0
Token d s = (s ≢ []) × Lacks d s

-- A string that a NUL does not cut short.
abbrev pub NoNul : Bytes → Type 0
NoNul = Lacks 0

pub c_string-append : (s rest : Bytes) → NoNul s → c_string (s ++ 0 ∷ rest) ≡ s
unfolding c_string
c_string-append [] rest h = refl
c_string-append (c ∷ s) rest h = ground (arith, c_string-append s rest)

-- The same behind what recv leaves of a buffer: `n` bytes were received, more than the string has.
pub c_string-take :
    (n : ℕ) (s junk tail : Bytes)
    → NoNul s
    → length s < n
    → c_string (take n (s ++ 0 ∷ junk) ++ tail) ≡ s
unfolding c_string
c_string-take zero s junk tail h lt = absurd (omega arith)
c_string-take (suc n) [] junk tail h lt = refl
c_string-take (suc n) (c ∷ s) junk tail (p, h) lt =
    rw (==_ne c 0 p) (ap (λ t. c ∷ t) (c_string-take n s junk tail h (omega arith)))

-- `strcpy(buffer, first); strcat(buffer, second); ...`
abbrev pub strcat_all : List Bytes → Bytes
strcat_all [] = []
strcat_all (s ∷ []) = s
strcat_all (s ∷ t ∷ rest) = s ++ strcat_all (t ∷ rest)
