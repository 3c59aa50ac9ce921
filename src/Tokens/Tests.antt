-- ===== src/Tokens/Tests.antt =====
-- A line of the shell, split at its blanks.
use grinch.Prelude.{ℕ, ◌≡◌, refl, true, List, [], ◌∷◌, arith}
use grinch.Errno.{ok, err, einval}
use grinch.Tokens.{double_quote, single_quote, tokens_from_string}
use grinch.Tokens.Laws.{tokens_from_string-joined, tokens_from_string_unclosed}

abbrev cat : List ℕ
cat = 99 ∷ 97 ∷ 116 ∷ []

abbrev path : List ℕ
path = 47 ∷ 97 ∷ []

tokens_from_string-joined_example :
    tokens_from_string true 32 (99 ∷ 97 ∷ 116 ∷ 32 ∷ 47 ∷ 97 ∷ []) ≡ ok (cat ∷ path ∷ [])
tokens_from_string-joined_example =
    tokens_from_string-joined 32 cat (path ∷ []) (omega arith) (omega arith) (omega arith)

tokens_from_string_unclosed_example :
    (tokens_from_string true 32 (double_quote ∷ 97 ∷ 32 ∷ 98 ∷ []) ≡ err einval)
    × (tokens_from_string true 32 (single_quote ∷ 97 ∷ 32 ∷ 98 ∷ [])
        ≡ ok ((single_quote ∷ 97 ∷ 32 ∷ 98 ∷ []) ∷ []))
tokens_from_string_unclosed_example =
    tokens_from_string_unclosed 32 (97 ∷ 32 ∷ 98 ∷ []) (omega arith)

-- Quotes keep the blanks between them, and stay in the word.
quoted_blank :
    tokens_from_string true 32 (double_quote ∷ 32 ∷ double_quote ∷ 32 ∷ 32 ∷ 97 ∷ [])
    ≡ ok ((double_quote ∷ 32 ∷ double_quote ∷ []) ∷ (97 ∷ []) ∷ [])
unfolding tokens_from_string
quoted_blank = refl
