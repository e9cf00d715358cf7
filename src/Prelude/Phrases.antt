-- ===== src/Prelude/Phrases.antt =====
-- `text.toLowerCase()` and `includes`, by code points.
use nestfleet.Prelude.Tests.{nat_beq, leb, if◌then◌else◌, Bool-cases}
use nestfleet.Prelude.Lists.{find, Has}
use nestfleet.Prelude.Text.{codes}
use Prim.Native.Nat.{ℕ, ◌+◌}
use Prim.Native.String.{String}
use mathlib.Core.Path.{◌≡◌, refl, ap, sym, ◌∙◌}
use mathlib.Core.Logic.{◌↔◌, inl, inr}
use mathlib.Core.Bool.{Bool, true, false, ◌&&◌, ◌||◌}
use mathlib.Core.Option.{Option, none}
use mathlib.Core.List.{List, [], ◌∷◌, ◌++◌}
use native.Mathlib.Omega.{arith}

-- The letters past ASCII whose lower case has an ASCII letter are the Kelvin sign and the dotted
-- capital I. The others stay as they are: no phrase of the program has them.
abbrev lower_code : ℕ → List ℕ
lower_code c =
    if leb b'A' c && leb c b'Z'
    then (c + 32) ∷ []
    else if nat_beq c 0x212a
    then b'k' ∷ []
    else if nat_beq c 0x130
    then b'i' ∷ 0x307 ∷ []
    else c ∷ []

abbrev lower_codes : List ℕ → List ℕ
lower_codes [] = []
lower_codes (c ∷ cs) = lower_code c ++ lower_codes cs

-- `s.toLowerCase()`
unfoldable pub lower : String → List ℕ
lower s = lower_codes (codes s)

abbrev starts_with : List ℕ → List ℕ → Bool
starts_with xs [] = true
starts_with [] (p ∷ ps) = false
starts_with (x ∷ xs) (p ∷ ps) = nat_beq x p && starts_with xs ps

-- `text.includes(phrase)`
unfoldable pub contains : List ℕ → List ℕ → Bool
contains [] ps = starts_with [] ps
contains (x ∷ xs) ps = starts_with (x ∷ xs) ps || contains xs ps

-- The first phrase of the list that occurs in the text, whatever its case.
unfoldable pub first_phrase : List String → String → Option String
unfolding lower contains
first_phrase phrases text = find (λ phrase. contains (lower text) (codes phrase)) phrases

starts_with-append : (ps qs : List ℕ) → starts_with (ps ++ qs) ps ≡ true
starts_with-append [] qs = refl
starts_with-append (p ∷ ps) qs = ground (arith, starts_with-append ps qs)

starts_with→append :
    (xs ps : List ℕ) → starts_with xs ps ≡ true → (rest : List ℕ) × (xs ≡ ps ++ rest)
starts_with→append xs [] h = (xs, refl)
starts_with→append [] (p ∷ ps) h = cc
starts_with→append (x ∷ xs) (p ∷ ps) h =
    let (rest, e) = starts_with→append xs ps (ground arith) in (rest, ground arith)

contains→parts :
    (xs ps : List ℕ)
    → contains xs ps ≡ true
    → (before after : List ℕ) × (xs ≡ before ++ ps ++ after)
unfolding contains
contains→parts [] ps h = let (rest, e) = starts_with→append [] ps h in ([], rest, e)
contains→parts (x ∷ xs) ps h = elim (Bool-cases (starts_with (x ∷ xs) ps)) [
  | inl here ↦ let (rest, e) = starts_with→append (x ∷ xs) ps here in ([], rest, e)
  | inr later ↦
      let (before, rest, e) = contains→parts xs ps (ground arith) in
      (x ∷ before, rest, ap (λ l. x ∷ l) e)
]

starts_with→contains : (xs ps : List ℕ) → starts_with xs ps ≡ true → contains xs ps ≡ true
unfolding contains
starts_with→contains [] ps h = h
starts_with→contains (x ∷ xs) ps h = rw h refl

parts→contains : (before ps after : List ℕ) → contains (before ++ ps ++ after) ps ≡ true
unfolding contains
parts→contains [] ps after = starts_with→contains (ps ++ after) ps (starts_with-append ps after)
parts→contains (b ∷ before) ps after = ground (arith, parts→contains before ps after)

-- The test finds a phrase exactly where the text splits around it.
pub contains_iff :
    (xs ps : List ℕ)
    → (contains xs ps ≡ true) ↔ (before : List ℕ) × (after : List ℕ) × (xs ≡ before ++ ps ++ after)
contains_iff xs ps =
    (contains→parts xs ps, λ (before, after, e). rw e (parts→contains before ps after))

append_assoc : (a b c : List ℕ) → a ++ b ++ c ≡ a ++ (b ++ c)
append_assoc [] b c = refl
append_assoc (x ∷ a) b c = ap (λ l. x ∷ l) (append_assoc a b c)

-- A text with a longer phrase has the phrases inside it.
pub contains-part : (xs a ps b : List ℕ) → contains xs (a ++ ps ++ b) ≡ true → contains xs ps ≡ true
contains-part xs a ps b h =
    let (before, after, e) = contains→parts xs (a ++ ps ++ b) h in
    (contains_iff xs ps).1 (before ++ a, b ++ after, e ∙ simp append_assoc)

module _ (text : String) where
  -- No phrase is found exactly where none of the list occurs.
  pub first_phrase-none :
      (phrases : List String) (p : String)
      → Has p phrases
      → first_phrase phrases text ≡ none
      → contains (lower text) (codes p) ≡ false
  unfolding first_phrase
  first_phrase-none [] p i h = absurd i
  first_phrase-none (q ∷ phrases) p (inl here) h =
      elim (Bool-cases (contains (lower text) (codes q))) [
        | inl e ↦ ground arith
        | inr e ↦ ap (λ x. contains (lower text) (codes x)) (sym here) ∙ e
      ]
  first_phrase-none (q ∷ phrases) p (inr there) h =
      ground (arith, first_phrase-none phrases p there)
