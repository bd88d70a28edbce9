-- ===== src/Tokenizer/Printable.antt =====
-- Which part of a text is shown while it grows (python/minisgl/tokenizer/detokenize.py). A string
-- is the list of its code points.
use flash_kvmo_e.Base.{
  ℕ, suc, ◌-◌, Bool, false, ◌&&◌, ◌||◌, Option, none, some, List, [], ◌∷◌, length, take, ltb, leb,
  ◌==◌, if◌then◌else◌,
}

abbrev between : ℕ → ℕ → ℕ → Bool
between low high cp = leb low cp && leb cp high

-- 0x4E00 to 0x9FFF, 0x3400 to 0x4DBF, and so on.
unfoldable pub is_chinese_char : ℕ → Bool
is_chinese_char cp =
    between 19968 40959 cp
    || between 13312 19903 cp
    || between 131072 173791 cp
    || between 173824 177983 cp
    || between 177984 178207 cp
    || between 178208 183983 cp
    || between 63744 64255 cp
    || between 194560 195103 cp

-- `text[-1]` and `text[-2]`, where they exist.
unfoldable pub last : List ℕ → Option ℕ
last [] = none
last (c ∷ []) = some c
last (c ∷ d ∷ cs) = last (d ∷ cs)

unfoldable pub penultimate : List ℕ → Option ℕ
penultimate [] = none
penultimate (c ∷ []) = none
penultimate (c ∷ d ∷ []) = some c
penultimate (c ∷ d ∷ e ∷ cs) = penultimate (d ∷ e ∷ cs)

abbrev pub holds_of : (ℕ → Bool) → Option ℕ → Bool
holds_of test none = false
holds_of test (some c) = test c

-- `text.endswith(c)`, for a string of one character.
abbrev pub ends_with : ℕ → List ℕ → Bool
unfolding last
ends_with c text = holds_of (λ d. d == c) (last text)

-- `text.rfind(" ") + 1`
unfoldable pub after_last_space : List ℕ → ℕ
after_last_space [] = 0
after_last_space (c ∷ cs) =
    let rest = after_last_space cs in if ltb 0 rest then suc rest else if c == 32 then 1 else 0

-- How many characters `find_printable_text` keeps. 10 is a new line.
unfoldable pub printable_length : List ℕ → ℕ
unfolding last penultimate is_chinese_char after_last_space
printable_length text =
    if ends_with 10 text
    then length text
    else if holds_of is_chinese_char (last text)
    then length text
    else if holds_of is_chinese_char (penultimate text)
    then length text - 1
    else after_last_space text

unfoldable pub find_printable_text : List ℕ → List ℕ
unfolding printable_length
find_printable_text text = take (printable_length text) text
