-- ===== src/Tokens/Laws.antt =====
-- The words that a line is split into.
use grinch.Prelude.{
  ℕ, ◌≡◌, refl, sym, ap, ◌∙◌, ◌≢◌, ◌⊎◌, inl, inr, Bool, true, false, ◌||◌, List, [], ◌∷◌, ◌++◌,
  append-nil, arith, ◌==◌, if◌then◌else◌,
}
use grinch.Errno.{ok, err, einval}
use grinch.Tokens.{double_quote, single_quote, Quotes, word_before, split_from, tokens_from_string}

-- No character is a quote or the delimiter.
abbrev pub IsPlain : ℕ → List ℕ → Type 0
IsPlain delim [] = Unit
IsPlain delim (c ∷ cs) = (c ≢ double_quote) × (c ≢ single_quote) × (c ≢ delim) × IsPlain delim cs

-- A word is plain and not empty.
abbrev pub IsWord : ℕ → List ℕ → Type 0
IsWord delim [] = ⊥
IsWord delim (c ∷ cs) = IsPlain delim (c ∷ cs)

abbrev pub AreWords : ℕ → List (List ℕ) → Type 0
AreWords delim [] = Unit
AreWords delim (w ∷ ws) = IsWord delim w × AreWords delim ws

-- The words with a delimiter between them.
abbrev pub joined : ℕ → List ℕ → List (List ℕ) → List ℕ
joined delim w [] = w
joined delim w (v ∷ vs) = w ++ (delim ∷ joined delim v vs)

abbrev outside : ℕ → Quotes
outside last = record { dquote = false; squote = false; last = last }

-- The last character of a word.
abbrev last_of : ℕ → List ℕ → ℕ
last_of l [] = l
last_of l (c ∷ cs) = last_of c cs

append_cons : (xs : List ℕ) (c : ℕ) (cs : List ℕ) → (xs ++ (c ∷ [])) ++ cs ≡ xs ++ (c ∷ cs)
append_cons [] c cs = refl
append_cons (x ∷ xs) c cs = ap (λ k. x ∷ k) (append_cons xs c cs)

split_plain_char :
    (delim : ℕ) (dq sq : Bool) (l : ℕ) (skip : Bool) (word : List ℕ) (c : ℕ) (cs : List ℕ)
    → c ≢ double_quote
    → c ≢ single_quote
    → c ≢ delim
    → split_from delim (record { dquote = dq; squote = sq; last = l }) skip word (c ∷ cs)
      ≡ split_from delim (record { dquote = dq; squote = sq; last = c }) false (word ++ (c ∷ [])) cs
unfolding split_from
split_plain_char delim dq sq l skip word c cs p q r = ground arith

-- A plain part of the line goes to the word.
split_plain :
    (delim : ℕ) (dq sq : Bool) (l : ℕ) (word w rest : List ℕ)
    → IsPlain delim w
    → split_from delim (record { dquote = dq; squote = sq; last = l }) false word (w ++ rest)
      ≡ split_from delim
          (record { dquote = dq; squote = sq; last = last_of l w })
          false
          (word ++ w)
          rest
split_plain delim dq sq l word [] rest plain =
    ap (λ k. split_from delim (record { dquote = dq; squote = sq; last = l }) false k rest)
      (sym (append-nil word))
split_plain delim dq sq l word (c ∷ w) rest (p, q, r, plain) =
    split_plain_char delim dq sq l false word c (w ++ rest) p q r
    ∙ split_plain delim dq sq c (word ++ (c ∷ [])) w rest plain
    ∙ ap
        (λ k.
          split_from delim (record { dquote = dq; squote = sq; last = last_of c w }) false k rest)
        (append_cons word c w)

split_word :
    (delim l : ℕ) (skip : Bool) (c : ℕ) (w rest : List ℕ)
    → IsPlain delim (c ∷ w)
    → split_from delim (outside l) skip [] (c ∷ (w ++ rest))
      ≡ split_from delim (outside (last_of c w)) false (c ∷ w) rest
split_word delim l skip c w rest (p, q, r, plain) =
    split_plain_char delim false false l skip [] c (w ++ rest) p q r
    ∙ split_plain delim false false c (c ∷ []) w rest plain

split_delim :
    (delim l : ℕ) (word cs : List ℕ)
    → delim ≢ double_quote
    → delim ≢ single_quote
    → split_from delim (outside l) false word (delim ∷ cs)
      ≡ word_before word (split_from delim (outside delim) true [] cs)
unfolding split_from
split_delim delim l word cs p q = ground arith

split_joined :
    (delim l : ℕ) (skip : Bool) (w : List ℕ) (ws : List (List ℕ))
    → delim ≢ double_quote
    → delim ≢ single_quote
    → AreWords delim (w ∷ ws)
    → split_from delim (outside l) skip [] (joined delim w ws) ≡ ok (w ∷ ws)
unfolding split_from
split_joined delim l skip [] ws p q (word, words) = elim word [ ]
split_joined delim l skip (c ∷ w) [] p q (word, words) =
    ap (λ k. split_from delim (outside l) skip [] (c ∷ k)) (sym (append-nil w))
    ∙ split_word delim l skip c w [] word
split_joined delim l skip (c ∷ w) (v ∷ vs) p q (word, words) =
    split_word delim l skip c w (delim ∷ joined delim v vs) word
    ∙ split_delim delim (last_of c w) (c ∷ w) (joined delim v vs) p q
    ∙ ap (word_before (c ∷ w)) (split_joined delim delim true v vs p q words)

-- Words that are not empty and hold neither quotes nor the delimiter, joined by single delimiters,
-- are what `tokens_from_string` splits the line into.
pub tokens_from_string-joined :
    (delim : ℕ) (w : List ℕ) (ws : List (List ℕ))
    → delim ≢ double_quote
    → delim ≢ single_quote
    → AreWords delim (w ∷ ws)
    → tokens_from_string true delim (joined delim w ws) ≡ ok (w ∷ ws)
unfolding tokens_from_string
tokens_from_string-joined delim w ws p q words = split_joined delim 0 false w ws p q words

-- No character is a quote.
abbrev pub IsUnquoted : List ℕ → Type 0
IsUnquoted [] = Unit
IsUnquoted (c ∷ cs) = (c ≢ double_quote) × (c ≢ single_quote) × IsUnquoted cs

split_inside_char :
    (delim : ℕ) (dq sq : Bool) (l : ℕ) (word : List ℕ) (c : ℕ) (cs : List ℕ)
    → (dq || sq) ≡ true
    → c ≢ double_quote
    → c ≢ single_quote
    → split_from delim (record { dquote = dq; squote = sq; last = l }) false word (c ∷ cs)
      ≡ split_from delim (record { dquote = dq; squote = sq; last = c }) false (word ++ (c ∷ [])) cs
unfolding split_from
split_inside_char delim dq sq l word c cs within p q = ground (arith, within)

-- What ends between quotes is one word, or an error.
split_inside :
    (delim : ℕ) (dq sq : Bool) (l : ℕ) (word w : List ℕ)
    → (dq || sq) ≡ true
    → IsUnquoted w
    → split_from delim (record { dquote = dq; squote = sq; last = l }) false word w
      ≡ (if dq then err einval else ok ((word ++ w) ∷ []))
unfolding split_from
split_inside delim dq sq l word [] within plain =
    ap (λ k. if dq then err einval else ok (k ∷ [])) (sym (append-nil word))
split_inside delim dq sq l word (c ∷ w) within (p, q, plain) =
    split_inside_char delim dq sq l word c w within p q
    ∙ split_inside delim dq sq c (word ++ (c ∷ [])) w within plain
    ∙ ap (λ k. if dq then err einval else ok (k ∷ [])) (append_cons word c w)

split_opened :
    (delim c : ℕ) (w : List ℕ)
    → (c ≡ double_quote) ⊎ (c ≡ single_quote)
    → split_from delim (outside 0) false [] (c ∷ w)
      ≡ split_from delim
          (record { dquote = c == double_quote; squote = c == single_quote; last = c })
          false
          (c ∷ [])
          w
unfolding split_from
split_opened delim c w h = ground (arith, h)

-- A quote is opened in front of text without further quotes and not closed: `tokens_from_string`
-- answers EINVAL for a double quote, but takes the line for one word for a single quote.
pub tokens_from_string_unclosed :
    (delim : ℕ) (w : List ℕ)
    → IsUnquoted w
    → (tokens_from_string true delim (double_quote ∷ w) ≡ err einval)
      × (tokens_from_string true delim (single_quote ∷ w) ≡ ok ((single_quote ∷ w) ∷ []))
unfolding tokens_from_string
tokens_from_string_unclosed delim w plain = (
  split_opened delim double_quote w (inl refl)
      ∙ split_inside delim true false double_quote (double_quote ∷ []) w refl plain,
  split_opened delim single_quote w (inr refl)
      ∙ split_inside delim false true single_quote (single_quote ∷ []) w refl plain,
)
