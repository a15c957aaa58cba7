-- ===== src/Sdk/Urls/Laws.antt =====
-- The loop of `stripTrailingSlashes` against the regular expression that its comment names.
use ascended_core.Base.{
  ℕ, zero, suc, ◌≤◌, ◌≡◌, refl, sym, ap, ◌∙◌, [], ◌∷◌, length, take, ◌==◌, if◌then◌else◌, arith,
  Bool-cases, inl, inr, ==_iff,
}
use ascended_core.Sdk.Urls.{Text, is_slash_at, end_of, strip_trailing_slashes}

-- a character before what is left of the rest
abbrev prepend : ℕ → Text → Text
prepend c [] = if c == b'/' then [] else c ∷ []
prepend c (d ∷ t) = c ∷ d ∷ t

-- `value.replace(/\/+$/, "")`
unfoldable pub replace_trailing_slashes : Text → Text
replace_trailing_slashes [] = []
replace_trailing_slashes (c ∷ s) = prepend c (replace_trailing_slashes s)

-- how far the loop goes down in a text that has one more character in front
abbrev one_more : ℕ → ℕ → ℕ
one_more c zero = if c == b'/' then 0 else 1
one_more c (suc n) = suc (suc n)

end_of_cons : (c : ℕ) (s : Text) (i : ℕ) → end_of (c ∷ s) (suc i) ≡ one_more c (end_of s i)
unfolding end_of is_slash_at
end_of_cons c s zero = refl
end_of_cons c s (suc i) = elim (Bool-cases (is_slash_at s i)) [
  | inl slash ↦ rw slash (end_of_cons c s i)
  | inr other ↦ rw other refl
]

end_of_bound : (s : Text) (i : ℕ) → end_of s i ≤ i
unfolding end_of
end_of_bound s zero = omega arith
end_of_bound s (suc i) = ground (arith, end_of_bound s i)

take-one_more :
    (c n : ℕ) (s : Text) → n ≤ length s → take (one_more c n) (c ∷ s) ≡ prepend c (take n s)
take-one_more c zero s h = elim (Bool-cases (c == b'/')) [
  | inl slash ↦ rw slash refl
  | inr other ↦ rw other refl
]
take-one_more c (suc n) [] h = absurd (omega (arith, h))
take-one_more c (suc n) (d ∷ s) h = refl

taken : (s : Text) → take (end_of s (length s)) s ≡ replace_trailing_slashes s
unfolding replace_trailing_slashes end_of
taken [] = refl
taken (c ∷ s) =
    ap (λ n. take n (c ∷ s)) (end_of_cons c s (length s))
    ∙ take-one_more c (end_of s (length s)) s (end_of_bound s (length s))
    ∙ ap (prepend c) (taken s)

take-length : (s : Text) → take (length s) s ≡ s
take-length [] = refl
take-length (c ∷ s) = ap (λ t. c ∷ t) (take-length s)

-- The loop of `stripTrailingSlashes` does what the replacement of the regular expression does.
pub strip_trailing_slashes_lem :
    (value : Text) → strip_trailing_slashes value ≡ replace_trailing_slashes value
unfolding strip_trailing_slashes
strip_trailing_slashes_lem value = elim (Bool-cases (end_of value (length value) == length value)) [
  | inl same ↦
      rw same
        (sym (take-length value) ∙ ap (λ n. take n value) (sym ((==_iff _ _).0 same)) ∙ taken value)
  | inr shorter ↦ rw shorter (taken value)
]
