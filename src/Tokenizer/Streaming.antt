-- ===== src/Tokenizer/Streaming.antt =====
-- Texts that grow at their end (python/minisgl/tokenizer/detokenize.py). The tokens of a byte-level
-- tokenizer may end inside a character: `decode` then ends in U+FFFD, which more ids may replace.
use flash_kvmo_e.Tokenizer.Printable.{
  last, ends_with, holds_of, printable_length, after_last_space, is_chinese_char, penultimate,
}
use flash_kvmo_e.Base.{
  ℕ, suc, ◌<◌, ◌≡◌, refl, sym, ap, ◌∙◌, subst, true, false, not, ◌&&◌, some, List, [], ◌∷◌, ◌++◌,
  length, take, ltb, ◌==◌, if◌then◌else◌, arith, ◌⊎◌, inl, inr, Bool-cases, ==_iff, Bool, and_true,
  Option-cases, lt→ltb,
}
use flash_kvmo_e.Tokenizer.Detokenize.{is_whole}

-- The text does not end in U+FFFD.
abbrev pub Closed : List ℕ → Type 0
Closed text = ends_with 65533 text ≡ false

-- What the offsets rely on. Decoding goes on behind a text that is closed; and more ids change the
-- last character of the text at most.
pub record IsStreaming (decode : List ℕ → List ℕ) : Type 0 where
  pub decode-nil : decode [] ≡ []
  pub decode-append :
      (xs ys : List ℕ) → Closed (decode xs) → decode (xs ++ ys) ≡ decode xs ++ decode ys
  pub decode-keeps :
      (xs ys : List ℕ) (n : ℕ)
      → n < length (decode xs)
      → take n (decode (xs ++ ys)) ≡ take n (decode xs)

last-append : (xs : List ℕ) (y : ℕ) (ys : List ℕ) → last (xs ++ y ∷ ys) ≡ last (y ∷ ys)
unfolding last
last-append [] y ys = refl
last-append (x ∷ []) y ys = refl
last-append (x ∷ x' ∷ xs) y ys = last-append (x' ∷ xs) y ys

pub Closed-of_append : (xs ys : List ℕ) → Closed (xs ++ ys) → Closed ys
unfolding last
Closed-of_append xs [] h = refl
Closed-of_append xs (y ∷ ys) h =
    subst (λ o. holds_of (λ d. d == 65533) o ≡ false) (last-append xs y ys) h

wrong : ¬ (false ≡ true)
wrong h = cc

not-true : (b : Bool) → not b ≡ true → b ≡ false
not-true true h = cc
not-true false h = refl

and_right : (a b : Bool) → a && b ≡ true → b ≡ true
and_right a b h = (and_true a b h).1

not-false : (b : Bool) → not b ≡ false → b ≡ true
not-false true h = refl
not-false false h = cc

ends_with-eq : (text : List ℕ) → ends_with 65533 text ≡ true → last text ≡ some 65533
unfolding last
ends_with-eq text h = elim (Option-cases (last text)) [
  | inl nothing ↦ absurd (wrong (subst (λ o. holds_of (λ d. d == 65533) o ≡ true) nothing h))
  | inr (c, there) ↦
      there
      ∙ ap some ((==_iff c 65533).0 (subst (λ o. holds_of (λ d. d == 65533) o ≡ true) there h))
]

open_end : (c : ℕ) (cs : List ℕ) → is_whole (c ∷ cs) ≡ false → ends_with 65533 (c ∷ cs) ≡ true
unfolding last
open_end c cs h = not-false (ends_with 65533 (c ∷ cs)) (
    subst (λ b. b && not (ends_with 65533 (c ∷ cs)) ≡ false)
      (lt→ltb 0 (suc (length cs)) (omega arith)) h)

pub Closed-append : (xs ys : List ℕ) → is_whole ys ≡ true → Closed (xs ++ ys)
unfolding last
Closed-append xs [] h = cc
Closed-append xs (y ∷ ys) h =
    subst (λ o. holds_of (λ d. d == 65533) o ≡ false) (sym (last-append xs y ys))
      (not-true (ends_with 65533 (y ∷ ys)) (and_right (ltb 0 (suc (length ys))) _ h))

-- A text that is not whole is empty or ends in U+FFFD.
pub partial-cases : (text : List ℕ) → is_whole text ≡ false → (text ≡ []) ⊎ (last text ≡ some 65533)
unfolding last
partial-cases [] h = inl refl
partial-cases (c ∷ cs) h = inr (ends_with-eq (c ∷ cs) (open_end c cs h))

after_last_space-lt : (text : List ℕ) → last text ≡ some 65533 → after_last_space text < length text
unfolding last after_last_space
after_last_space-lt [] h = cc
after_last_space-lt (c ∷ []) h =
    let e : c ≡ 65533 = cc in subst (λ k. (if k == 32 then 1 else 0) < 1) (sym e) (omega arith)
after_last_space-lt (c ∷ d ∷ cs) h = ground (arith, after_last_space-lt (d ∷ cs) h)

some_text : (text : List ℕ) → last text ≡ some 65533 → 0 < length text
unfolding last
some_text [] h = cc
some_text (c ∷ cs) h = omega arith

-- The part that is shown of it leaves the last character out.
pub printable_length-lt :
    (text : List ℕ) → last text ≡ some 65533 → printable_length text < length text
unfolding printable_length is_chinese_char
printable_length-lt text h =
    let below = after_last_space-lt text h in
    let some_chars = some_text text h in
    rw (printable_length, h)
      (elim (Bool-cases (holds_of is_chinese_char (penultimate text))) [
        | inl shown ↦ rw shown (omega (arith, some_chars))
        | inr hidden ↦ rw hidden below
      ])
