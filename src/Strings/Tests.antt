-- ===== src/Strings/Tests.antt =====
-- Strings at 10 (two characters) and at 20 (the same two and a third).
use grinch.Prelude.{◌≡◌, refl, some, arith, ◌==◌, if◌then◌else◌}
use grinch.Bytes.{Memory}
use grinch.Strings.{strchrnul, strchrnul_from, strrchr, strrchr_from, strcount}
use grinch.Strings.Laws.{IsString, AreBytes}

abbrev words : Memory
words a =
    if a == 10
    then 97
    else if a == 11
    then 98
    else if a == 20
    then 97
    else if a == 21
    then 98
    else if a == 22
    then 97
    else 0

words-AreBytes : AreBytes words
words-AreBytes a = ground arith

IsString-short : IsString words 10 2
IsString-short = record { text = λ j p. ground arith; end = refl }

IsString-long : IsString words 20 3
IsString-long = record { text = λ j p. ground arith; end = refl }

finds_end : strchrnul 5 words 10 99 ≡ some 12
unfolding strchrnul strchrnul_from
finds_end = refl

finds_last : strrchr 5 words 20 97 ≡ some (some 22)
unfolding strrchr strrchr_from
finds_last = refl

counts_two : strcount 5 words 20 97 ≡ some 2
unfolding strcount
counts_two = refl
