-- ===== src/Text/Token.antt =====
-- strtok with a delimiter of one character. Between calls the C library keeps the text behind the
-- last token; here that text is passed on, and `none` is the NULL of a call that finds no token.
use premium.Base.{
  ℕ, [], ◌∷◌, ◌++◌, ◌≡◌, refl, Option, none, some, arith, ◌==◌, if◌then◌else◌, append_assoc,
  append-nil,
}
use premium.Text.{Bytes, Lacks, Token}

-- The delimiters before a token are passed over.
unfoldable pub skip : ℕ → Bytes → Bytes
skip d [] = []
skip d (c ∷ s) = let rest = skip d s in if c == d then rest else c ∷ s

-- The token up to the next delimiter, which the call overwrites by NUL, and the text behind it.
unfoldable pub scan : ℕ → Bytes → Bytes → Bytes × Bytes
scan d [] token = (token, [])
scan d (c ∷ s) token = let rest = scan d s (token ++ c ∷ []) in if c == d then (token, s) else rest

unfoldable pub cut : ℕ → Bytes → Option (Bytes × Bytes)
cut d [] = none
cut d (c ∷ s) = some (scan d (c ∷ s) [])

unfoldable pub strtok : ℕ → Bytes → Option (Bytes × Bytes)
unfolding skip scan cut
strtok d s = cut d (skip d s)

pub scan-token :
    (d : ℕ) (t rest acc : Bytes) → Lacks d t → scan d (t ++ d ∷ rest) acc ≡ (acc ++ t, rest)
unfolding scan
scan-token d [] rest acc h = ground (arith, append-nil acc)
scan-token d (c ∷ t) rest acc h =
    ground (arith, scan-token d t rest (acc ++ c ∷ []), append_assoc acc (c ∷ []) t)

pub scan_last : (d : ℕ) (t acc : Bytes) → Lacks d t → scan d t acc ≡ (acc ++ t, [])
unfolding scan
scan_last d [] acc h = ground (arith, append-nil acc)
scan_last d (c ∷ t) acc h =
    ground (arith, scan_last d t (acc ++ c ∷ []), append_assoc acc (c ∷ []) t)

-- A token is cut off at the delimiter that follows it.
pub strtok_step : (d : ℕ) (t rest : Bytes) → Token d t → strtok d (t ++ d ∷ rest) ≡ some (t, rest)
unfolding strtok
strtok_step d [] rest (ne, h) = absurd (ne refl)
strtok_step d (c ∷ t) rest (ne, h) = ground (arith, scan-token d (c ∷ t) rest [])

-- The last token reaches to the end of the text.
pub strtok_last : (d : ℕ) (t : Bytes) → Token d t → strtok d t ≡ some (t, [])
unfolding strtok
strtok_last d [] (ne, h) = absurd (ne refl)
strtok_last d (c ∷ t) (ne, h) = ground (arith, scan_last d (c ∷ t) [])

pub strtok-nil : (d : ℕ) → strtok d [] ≡ none
unfolding strtok
strtok-nil d = refl

-- `tok = strtok(...)` where the program goes on with a NULL token: another call finds none either.
unfoldable pub next_token : ℕ → Bytes → Option Bytes × Bytes
next_token d s = elim (strtok d s) [ none ↦ (none, []) | some (t, rest) ↦ (some t, rest) ]

pub next_token_step :
    (d : ℕ) (t rest : Bytes) → Token d t → next_token d (t ++ d ∷ rest) ≡ (some t, rest)
unfolding next_token
next_token_step d t rest h = rw (strtok_step d t rest h, next_token)

pub next_token_last : (d : ℕ) (t : Bytes) → Token d t → next_token d t ≡ (some t, [])
unfolding next_token
next_token_last d t h = rw (strtok_last d t h, next_token)

pub next_token-nil : (d : ℕ) → next_token d [] ≡ (none, [])
unfolding next_token strtok
next_token-nil d = refl
