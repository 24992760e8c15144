-- ===== src/Prelude/Split.antt =====
-- strings.Split by a separator of one byte, and strings.Join as its inverse.
use Prim.Native.Char.{Char, code}
use Prim.Native.String.{String}
use mathlib.Core.Path.{◌≡◌, refl, sym, ap, ap₂, ◌∙◌}
use mathlib.Core.Bool.{false}
use mathlib.Core.List.{List, [], ◌∷◌}
use native.Mathlib.Omega.{arith}
use text.Mathlib.TextLemmas.{append-nil, append_assoc, cons-append, nil-append}
use ocular.Prelude.Lists.{All}
use ocular.Prelude.Tests.{if◌then◌else◌, ◌==◌}
use ocular.Prelude.Text.{concat}
use Prim.Native.Nat.{ℕ}

-- `cur` is the part of the current element that has been read
unfoldable pub split_from : ℕ → String → String → List String
split_from sep cur String.[] = cur ∷ []
split_from sep cur (String.◌∷◌ ch s) =
    let closed = cur ∷ split_from sep "" s in
    let longer = split_from sep (concat cur (String.◌∷◌ ch "")) s in
    if code ch == sep then closed else longer

-- strings.Split(s, sep), for a separator with the given code
unfoldable pub split_on : ℕ → String → List String
unfolding split_from
split_on sep s = split_from sep "" s

-- strings.Join(parts, sep)
unfoldable pub join_with : String → List String → String
join_with sep [] = ""
join_with sep (s ∷ rest) = after rest (join_with sep rest)
  where
    after : List String → String → String
    after [] joined = s
    after (t ∷ ts) joined = concat s (concat sep joined)

-- no byte of the text is the separator
unfoldable pub Without : ℕ → String → Type 0
Without sep String.[] = Unit
Without sep (String.◌∷◌ ch s) = (code ch == sep ≡ false) × Without sep s

module _ (ch : Char) where
  abbrev sep_text : String
  sep_text = String.◌∷◌ ch ""

  -- a character moves from the text that is read to what has been read
  shift :
      (cur : String) (c : Char) (s : String)
      → concat (concat cur (String.◌∷◌ c "")) s ≡ concat cur (String.◌∷◌ c s)
  shift cur c s =
      append_assoc cur (String.◌∷◌ c "") s
      ∙ ap (concat cur) (cons-append c "" s ∙ ap (String.◌∷◌ c) (nil-append s))

  split_from-last :
      (cur s : String) → Without (code ch) s → split_from (code ch) cur s ≡ concat cur s ∷ []
  unfolding split_from Without
  split_from-last cur String.[] h = ap (λ l. l ∷ []) (sym (append-nil cur))
  split_from-last cur (String.◌∷◌ c s) h =
      rw (h.0, split_from-last (concat cur (String.◌∷◌ c "")) s h.1)
        (ap (λ l. l ∷ []) (shift cur c s))

  split_from-sep :
      (cur rest : String)
      → split_from (code ch) cur (String.◌∷◌ ch rest) ≡ cur ∷ split_from (code ch) "" rest
  unfolding split_from
  split_from-sep cur rest = ground arith

  split_from-part :
      (cur s rest : String)
      → Without (code ch) s
      → split_from (code ch) cur (concat s (String.◌∷◌ ch rest))
        ≡ concat cur s ∷ split_from (code ch) "" rest
  unfolding split_from Without
  split_from-part cur String.[] rest h =
      rw (nil-append (String.◌∷◌ ch rest), append-nil cur) (split_from-sep cur rest)
  split_from-part cur (String.◌∷◌ c s) rest h =
      rw
        (
          cons-append c s (String.◌∷◌ ch rest),
          h.0,
          split_from-part (concat cur (String.◌∷◌ c "")) s rest h.1,
          shift cur c s,
        )
        refl

  -- What is joined by a separator is split into the same parts, if there is at least one and none
  -- contains the separator.
  pub split_on-join_with :
      (part : String) (parts : List String)
      → All (Without (code ch)) (part ∷ parts)
      → split_on (code ch) (join_with sep_text (part ∷ parts)) ≡ part ∷ parts
  unfolding split_on join_with
  split_on-join_with part [] h = split_from-last "" part h.0 ∙ ap (λ s. s ∷ []) (nil-append part)
  split_on-join_with part (next ∷ parts) h =
      let rest = join_with sep_text (next ∷ parts) in
      ap (λ s. split_from (code ch) "" (concat part s))
        (cons-append ch "" rest ∙ ap (String.◌∷◌ ch) (nil-append rest))
      ∙ split_from-part "" part rest h.0
      ∙ ap₂ ◌∷◌ (nil-append part) (split_on-join_with next parts h.1)
