-- ===== src/Shared/Uniqueness.antt =====
-- The loop of `uniqueSlug`.
use nestfleet.Prelude.{
  ℕ, zero, suc, ◌+◌, ◌*◌, ◌-◌, ◌/◌, ◌%◌, ◌≤◌, ◌<◌, List, [], ◌∷◌, ◌++◌, true, false, leb, ltb, keep,
  length, length-keep-le, ◌≡◌, refl, ap, ◌∙◌, arith, Bool-cases, inl, inr,
}
use nestfleet.Shared.Slugs.{
  hyphen, number_digits, numbered, same_text, has_text, unique_from, unique_slug,
}

-- The number that digits are read as, after what was read before.
abbrev read : ℕ → List ℕ → ℕ
read before [] = before
read before (c ∷ s) = read (before * 10 + (c - 48)) s

read-append : (n c : ℕ) (s : List ℕ) → read n (s ++ c ∷ []) ≡ read n s * 10 + (c - 48)
read-append n c [] = refl
read-append n c (d ∷ s) = read-append (n * 10 + (d - 48)) c s

read-number_digits : (fuel n : ℕ) → n < fuel → read 0 (number_digits fuel n) ≡ n
unfolding number_digits
read-number_digits zero n h = absurd (omega arith)
read-number_digits (suc fuel) n h = elim (Bool-cases (ltb n 10)) [
  | inl small ↦ rw small (omega arith)
  | inr large ↦
      rw (large, read-append 0 (48 + n % 10) (number_digits fuel (n / 10)))
        (rw (read-number_digits fuel (n / 10) (ground arith)) (omega arith))
]

abbrev drop : ℕ → List ℕ → List ℕ
drop zero s = s
drop (suc n) [] = []
drop (suc n) (c ∷ s) = drop n s

drop-append : (b s : List ℕ) → drop (length b) (b ++ s) ≡ s
drop-append [] s = refl
drop-append (c ∷ b) s = drop-append b s

-- The number behind the base and its hyphen.
abbrev index : List ℕ → List ℕ → ℕ
index base s = read 0 (drop 1 (drop (length base) s))

index-numbered : (base : List ℕ) (n : ℕ) → index base (numbered base n) ≡ n
index-numbered base n =
    rw (drop-append base (hyphen ∷ number_digits (suc n) n))
      (read-number_digits (suc n) n (omega arith))

same_text_iff : (s t : List ℕ) → same_text s t ≡ true → s ≡ t
same_text_iff [] [] h = refl
same_text_iff [] (d ∷ t) h = cc
same_text_iff (c ∷ s) [] h = cc
same_text_iff (c ∷ s) (d ∷ t) h = grind (arith, same_text_iff s t)

module _ (base : List ℕ) where
  -- The members that a round from `n` on may still meet.
  abbrev later : ℕ → List (List ℕ) → ℕ
  later n existing = length (keep (λ s. leb n (index base s)) existing)

  later-le : (n : ℕ) (existing : List (List ℕ)) → later (n + 1) existing ≤ later n existing
  later-le n [] = omega arith
  later-le n (s ∷ existing) = ground (arith, later-le n existing)

  later-lt :
      (n : ℕ) (existing : List (List ℕ))
      → has_text (numbered base n) existing ≡ true
      → later (n + 1) existing < later n existing
  later-lt n [] h = cc
  later-lt n (s ∷ existing) h = elim (Bool-cases (same_text s (numbered base n))) [
    | inl here ↦ ground (
      arith,
      ap (index base) (same_text_iff s (numbered base n) here) ∙ index-numbered base n,
      later-le n existing,
    )
    | inr there ↦ ground (arith, later-lt n existing, later-le n existing)
  ]

  unique_from-is_new :
      (existing : List (List ℕ)) (fuel n : ℕ)
      → later n existing ≤ fuel
      → has_text (unique_from base existing fuel n) existing ≡ false
  unfolding unique_from
  unique_from-is_new existing zero n h = elim (Bool-cases (has_text (numbered base n) existing)) [
    | inl taken ↦ absurd (omega (arith, later-lt n existing taken))
    | inr free ↦ free
  ]
  unique_from-is_new existing (suc fuel) n h =
      elim (Bool-cases (has_text (numbered base n) existing)) [
        | inl taken ↦
            rw taken
              (unique_from-is_new existing fuel (n + 1) (omega (arith, later-lt n existing taken)))
        | inr free ↦ rw free free
      ]

-- With as many rounds as there are slugs, the loop of `unique_slug` ends on a slug that is none of
-- them.
pub unique_slug-is_new :
    (base : List ℕ) (existing : List (List ℕ))
    → has_text (unique_slug base existing) existing ≡ false
unfolding unique_slug
unique_slug-is_new base existing = elim (Bool-cases (has_text base existing)) [
  | inl taken ↦ rw taken (
      unique_from-is_new base existing (length existing) 2
        (length-keep-le (λ s. leb 2 (index base s)) existing))
  | inr free ↦ rw free free
]
