-- ===== src/Shared/Slugs.antt =====
-- src/shared/slugify.ts: `slugify` and `uniqueSlug`. A string is the list of its code units;
-- `toLowerCase` is a parameter.
use nestfleet.Prelude.{
  ℕ, zero, suc, ◌+◌, ◌/◌, ◌%◌, ◌≤◌, List, [], ◌∷◌, ◌++◌, Bool, true, false, ◌&&◌, ◌||◌, leb, ltb,
  nat_beq, all, any, take, length, length-take-le, if◌then◌else◌, ◌≡◌, refl, arith,
}

-- "-"
abbrev pub hyphen : ℕ
hyphen = 45

-- `[a-z0-9]`
abbrev pub is_alnum : ℕ → Bool
is_alnum c = (leb 97 c && leb c 122) || (leb 48 c && leb c 57)

-- `replace(/[^a-z0-9]+/g, "-")`; the flag tells that a run is open.
unfoldable pub collapse : Bool → List ℕ → List ℕ
collapse in_run [] = []
collapse in_run (c ∷ s) =
    let plain = c ∷ collapse false s in
    let run = collapse true s in if is_alnum c then plain else if in_run then run else hyphen ∷ run

-- `replace(/^-+|-+$/g, "")`
unfoldable pub strip_start : List ℕ → List ℕ
strip_start [] = []
strip_start (c ∷ s) = if nat_beq c hyphen then strip_start s else c ∷ s

abbrev cons_unless_hyphen : ℕ → List ℕ → List ℕ
cons_unless_hyphen c [] = if nat_beq c hyphen then [] else c ∷ []
cons_unless_hyphen c (d ∷ s) = c ∷ d ∷ s

unfoldable pub strip_end : List ℕ → List ℕ
strip_end [] = []
strip_end (c ∷ s) = cons_unless_hyphen c (strip_end s)

unfoldable pub slugify : (List ℕ → List ℕ) → List ℕ → List ℕ
unfolding collapse strip_start strip_end
slugify to_lower_case name = take 60 (strip_end (strip_start (collapse false (to_lower_case name))))

abbrev pub same_text : List ℕ → List ℕ → Bool
same_text [] [] = true
same_text [] (d ∷ t) = false
same_text (c ∷ s) [] = false
same_text (c ∷ s) (d ∷ t) = nat_beq c d && same_text s t

-- The decimal digits of a number; it has no more than its value plus one.
unfoldable pub number_digits : ℕ → ℕ → List ℕ
number_digits zero n = []
number_digits (suc fuel) n =
    let rest = number_digits fuel (n / 10) in
    if ltb n 10 then (48 + n) ∷ [] else rest ++ (48 + n % 10) ∷ []

-- `${base}-${n}`
abbrev pub numbered : List ℕ → ℕ → List ℕ
numbered base n = base ++ hyphen ∷ number_digits (suc n) n

-- `existing.has(s)`
abbrev pub has_text : List ℕ → List (List ℕ) → Bool
has_text s existing = any (λ t. same_text t s) existing

-- The `while` loop, on fuel.
unfoldable pub unique_from : List ℕ → List (List ℕ) → ℕ → ℕ → List ℕ
unfolding number_digits
unique_from base existing zero n = numbered base n
unique_from base existing (suc fuel) n =
    let rest = unique_from base existing fuel (n + 1) in
    if has_text (numbered base n) existing then rest else numbered base n

-- Each round but the last meets another member of the set.
unfoldable pub unique_slug : List ℕ → List (List ℕ) → List ℕ
unfolding unique_from
unique_slug base existing =
    let found = unique_from base existing (length existing) 2 in
    if has_text base existing then found else base

abbrev pub is_slug_char : ℕ → Bool
is_slug_char c = is_alnum c || nat_beq c hyphen

abbrev pub starts_plain : List ℕ → Bool
starts_plain [] = true
starts_plain (c ∷ s) = is_alnum c

collapse-chars : (in_run : Bool) (s : List ℕ) → all is_slug_char (collapse in_run s) ≡ true
unfolding collapse
collapse-chars in_run [] = refl
collapse-chars in_run (c ∷ s) = grind (arith, collapse-chars false s, collapse-chars true s)

strip_start-chars :
    (s : List ℕ)
    → all is_slug_char s ≡ true
    → (all is_slug_char (strip_start s) ≡ true) × (starts_plain (strip_start s) ≡ true)
unfolding strip_start
strip_start-chars [] h = (refl, refl)
strip_start-chars (c ∷ s) h = grind (arith, strip_start-chars s)

abbrev IsSlug : List ℕ → Type 0
IsSlug s = (all is_slug_char s ≡ true) × (starts_plain s ≡ true)

cons_unless_hyphen-chars :
    (c : ℕ) (s : List ℕ)
    → is_slug_char c ≡ true
    → all is_slug_char s ≡ true
    → all is_slug_char (cons_unless_hyphen c s) ≡ true
cons_unless_hyphen-chars c [] h k = ground arith
cons_unless_hyphen-chars c (d ∷ s) h k = ground arith

cons_unless_hyphen-start :
    (c : ℕ) (s : List ℕ) → is_alnum c ≡ true → starts_plain (cons_unless_hyphen c s) ≡ true
cons_unless_hyphen-start c [] h = ground arith
cons_unless_hyphen-start c (d ∷ s) h = h

strip_end-chars : (s : List ℕ) → all is_slug_char s ≡ true → all is_slug_char (strip_end s) ≡ true
unfolding strip_end
strip_end-chars [] h = refl
strip_end-chars (c ∷ s) h =
    cons_unless_hyphen-chars c (strip_end s) (first c (all is_slug_char s) h)
      (strip_end-chars s (rest (is_slug_char c) (all is_slug_char s) h))
  where
    first : (c : ℕ) (b : Bool) → (is_slug_char c && b) ≡ true → is_slug_char c ≡ true
    first c b h = ground arith

    rest : (a b : Bool) → (a && b) ≡ true → b ≡ true
    rest a b h = ground arith

strip_end-start : (s : List ℕ) → starts_plain s ≡ true → starts_plain (strip_end s) ≡ true
unfolding strip_end
strip_end-start [] h = refl
strip_end-start (c ∷ s) h = cons_unless_hyphen-start c (strip_end s) h

take-IsSlug : (n : ℕ) (s : List ℕ) → IsSlug s → IsSlug (take n s)
take-IsSlug zero s h = (refl, refl)
take-IsSlug (suc n) [] h = h
take-IsSlug (suc n) (c ∷ s) h = (take-chars (suc n) (c ∷ s) h.0, h.1)
  where
    take-chars :
        (n : ℕ) (s : List ℕ) → all is_slug_char s ≡ true → all is_slug_char (take n s) ≡ true
    take-chars zero s h = refl
    take-chars (suc n) [] h = refl
    take-chars (suc n) (c ∷ s) h = grind (arith, take-chars n s)

-- A slug has only small letters, digits and hyphens, does not begin with a hyphen, and is at most
-- 60 long.
pub slugify-IsSlug :
    (to_lower_case : List ℕ → List ℕ) (name : List ℕ)
    → (all is_slug_char (slugify to_lower_case name) ≡ true)
      × (starts_plain (slugify to_lower_case name) ≡ true)
      × (length (slugify to_lower_case name) ≤ 60)
unfolding slugify
slugify-IsSlug to_lower_case name =
    let text = collapse false (to_lower_case name) in
    let (chars, plain) = strip_start-chars text (collapse-chars false (to_lower_case name)) in
    let stripped = strip_end (strip_start text) in
    let (chars', plain') =
      take-IsSlug 60 stripped
        (strip_end-chars (strip_start text) chars, strip_end-start (strip_start text) plain) in
    (chars', plain', length-take-le 60 stripped)
