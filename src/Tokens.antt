-- ===== src/Tokens.antt =====
-- user/apps/gsh/tokens.c: how the shell splits a line, and PATH, into words. A string is the list of
-- its characters; memory for the words is there.
pub mod Laws
mod Tests
use grinch.Prelude.{ℕ, Bool, true, false, not, ◌&&◌, ◌||◌, List, [], ◌∷◌, ◌++◌, ◌==◌, if◌then◌else◌}
use grinch.Errno.{Result, ok, err, einval, enomem}

abbrev pub double_quote : ℕ
double_quote = 34

abbrev pub single_quote : ℕ
single_quote = 39

abbrev pub backslash : ℕ
backslash = 92

-- The flags `dquote` and `squote`, and the last character.
pub record Quotes : Type 0 where
  pub dquote : Bool
  pub squote : Bool
  pub last : ℕ

-- The flags once the character `c` is read.
abbrev pub read_char : Quotes → ℕ → Quotes
read_char q c = record {
  dquote =
      if c == double_quote && not (q.last == backslash) && not q.squote
      then not q.dquote
      else q.dquote;
  squote =
      if c == single_quote && not (q.last == backslash) && not q.dquote
      then not q.squote
      else q.squote;
  last = c;
}

-- A quote inside of the other kind of quotes belongs to the word whatever the delimiter is.
abbrev pub quoted : Quotes → ℕ → Bool
quoted q c =
    not (q.last == backslash) && (c == double_quote && q.squote || c == single_quote && q.dquote)

-- A word in front of the others.
abbrev pub word_before : List ℕ → Result (List (List ℕ)) → Result (List (List ℕ))
word_before w (ok ws) = ok (w ∷ ws)
word_before w (err e) = err e

-- The loop of `tokens_from_string`; `skip` stands for its inner loop over delimiters, and `word` for
-- what lies between `start` and `end`.
unfoldable pub split_from : ℕ → Quotes → Bool → List ℕ → List ℕ → Result (List (List ℕ))
split_from delim q skip word [] = if q.dquote then err einval else ok (word ∷ [])
split_from delim q skip word (c ∷ cs) =
    let q' = read_char q c in
    let skipped = split_from delim q true word cs in
    let longer = split_from delim q' false (word ++ (c ∷ [])) cs in
    let ended = word_before word (split_from delim q' true [] cs) in
    if skip && c == delim
    then skipped
    else if not (quoted q c) && not q'.dquote && not q'.squote && c == delim
    then ended
    else longer

-- `tokens_from_string`; the first argument tells whether the array could be allocated.
unfoldable pub tokens_from_string : Bool → ℕ → List ℕ → Result (List (List ℕ))
unfolding split_from
tokens_from_string array delim cs =
    if array
    then split_from delim (record { dquote = false; squote = false; last = 0 }) false [] cs
    else err enomem
