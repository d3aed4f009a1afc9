-- ===== src/Adapters/Verification/Versions/Pinned.antt =====
-- core/contracts/verification.py: a range that pins one version admits that version only.
use gxassessms.Base.{
  ℕ, ◌+◌, ◌*◌, ◌≡◌, ◌≢◌, refl, sym, ap, subst, ◌∙◌, arith, Bool-cases, Option-cases, inl, inr, true,
  false, Option, none, some, List, [], ◌∷◌, ◌==◌, Chars, split_on, split_on-last, push_first, All,
}
use gxassessms.Errors.{ok, or_value_error, >>=-ok}
use gxassessms.Adapters.Verification.Versions.{
  Unicode, Version, chomp, is_nil, rstrip, lstrip, strip, number_from, number, version_of, of_parts,
  match_semver, parse_semver, equal, version_eq, parse_constraint, all_hold,
  version_satisfies_range,
}

-- what holds of the parts of a text and of the separator holds of the text
All-push_first :
    (P : ℕ → Type 0) (c : ℕ) (ss : List Chars)
    → All (All P) (push_first c ss)
    → P c × All (All P) ss
All-push_first P c [] h = (h.0.0, tt)
All-push_first P c (s ∷ ss) h = (h.0.0, (h.0.1, h.1))

All-unsplit :
    (P : ℕ → Type 0) (sep : ℕ) (cs : Chars) → P sep → All (All P) (split_on sep cs) → All P cs
unfolding split_on
All-unsplit P sep [] at_sep h = tt
All-unsplit P sep (c ∷ cs) at_sep h = elim (Bool-cases (c == sep)) [
  | inl e ↦
      let parts = rw e at h in
      (subst P (sym (ground (arith, e))) at_sep, All-unsplit P sep cs at_sep parts.1)
  | inr e ↦
      let (first, parts) = All-push_first P c (split_on sep cs) (rw e at h) in
      (first, All-unsplit P sep cs at_sep parts)
]

All-chomp : (P : ℕ → Type 0) (cs : Chars) → P 10 → All P (chomp cs) → All P cs
unfolding chomp
All-chomp P [] at_newline h = tt
All-chomp P (c ∷ []) at_newline h = elim (Bool-cases (c == 10)) [
  | inl e ↦ (subst P (sym (ground (arith, e))) at_newline, tt)
  | inr e ↦ let kept = rw e at h in kept
]
All-chomp P (c ∷ d ∷ cs) at_newline h = (h.0, All-chomp P (d ∷ cs) at_newline h.1)

or_value_error-ok : {A : Type 0} {a : A} (o : Option A) → or_value_error o ≡ ok a → o ≡ some a
or_value_error-ok none h = ground arith
or_value_error-ok (some a) h = ground (arith, h)

module _ (u : Unicode) where
  open u use {digit_value, is_space, digit_no_space, comma_no_digit, newline_space, dot_no_space}

  -- a character of a version: no white space and no comma
  abbrev IsPlain : ℕ → Type 0
  IsPlain c = (is_space c ≡ false) × (c ≢ b',')

  digit-IsPlain : (c d : ℕ) → digit_value c ≡ some d → IsPlain c
  digit-IsPlain c d h =
      (digit_no_space c d h, λ e. ground (arith, h, ap digit_value e, comma_no_digit))

  number_from-none : (cs : Chars) (n : ℕ) → number_from u none cs ≡ some n → ⊥
  unfolding number_from
  number_from-none [] n h = ground arith
  number_from-none (c ∷ cs) n h = ground arith

  number_from-IsPlain :
      (acc : ℕ) (cs : Chars) (n : ℕ) → number_from u (some acc) cs ≡ some n → All IsPlain cs
  unfolding number_from
  number_from-IsPlain acc [] n h = tt
  number_from-IsPlain acc (c ∷ cs) n h = elim (Option-cases (digit_value c)) [
    | inl absent ↦ absurd (number_from-none cs n (rw absent at h))
    | inr (d, digit) ↦
        (digit-IsPlain c d digit, number_from-IsPlain (acc * 10 + d) cs n (rw digit at h))
  ]

  number-IsPlain : (cs : Chars) (n : ℕ) → number u cs ≡ some n → All IsPlain cs
  unfolding number
  number-IsPlain [] n h = tt
  number-IsPlain (c ∷ cs) n h = number_from-IsPlain 0 (c ∷ cs) n h

  of_parts-IsPlain : (ss : List Chars) (v : Version) → of_parts u ss ≡ some v → All (All IsPlain) ss
  of_parts-IsPlain [] v h = ground arith
  of_parts-IsPlain (a ∷ []) v h = ground arith
  of_parts-IsPlain (a ∷ b ∷ []) v h = ground arith
  of_parts-IsPlain (a ∷ b ∷ c ∷ d ∷ ss) v h = ground arith
  of_parts-IsPlain (a ∷ b ∷ c ∷ []) v h =
      let parts = numbers (number u a) (number u b) (number u c) h in
      let (m, n, p, at_a, at_b, at_c) = parts in
      (number-IsPlain a m at_a, (number-IsPlain b n at_b, (number-IsPlain c p at_c, tt)))
    where
      numbers :
          (x y z : Option ℕ)
          → version_of x y z ≡ some v
          → (m : ℕ) × (n : ℕ) × (p : ℕ) × (x ≡ some m) × (y ≡ some n) × (z ≡ some p)
      numbers (some m) (some n) (some p) e = (m, n, p, refl, refl, refl)
      numbers (some m) (some n) none e = ground arith
      numbers (some m) none z e = ground arith
      numbers none y z e = ground arith

  match_semver-IsPlain :
      (cs : Chars) (v : Version) → match_semver u cs ≡ some v → All IsPlain (chomp cs)
  unfolding match_semver
  match_semver-IsPlain cs v h =
      All-unsplit IsPlain b'.' (chomp cs) (dot_no_space, omega arith)
        (of_parts-IsPlain (split_on b'.' (chomp cs)) v h)

  rstrip-head : (c : ℕ) (cs : Chars) → is_space c ≡ false → rstrip u (c ∷ cs) ≡ c ∷ rstrip u cs
  unfolding rstrip
  rstrip-head c cs h = elim (Bool-cases (is_nil (rstrip u cs))) [
    | inl e ↦ rw (e, h) refl
    | inr e ↦ rw e refl
  ]

  rstrip-eq-chomp : (cs : Chars) → All IsPlain (chomp cs) → rstrip u cs ≡ chomp cs
  unfolding rstrip chomp
  rstrip-eq-chomp [] h = refl
  rstrip-eq-chomp (c ∷ []) h = elim (Bool-cases (c == 10)) [
    | inl e ↦
        let at_newline : is_space c ≡ true = ap is_space (ground (arith, e)) ∙ newline_space in
        rw (e, at_newline) refl
    | inr e ↦ let kept = rw e at h in rw (e, kept.0.0) refl
  ]
  rstrip-eq-chomp (c ∷ d ∷ cs) h =
      rstrip-head c (d ∷ cs) h.0.0 ∙ ap (λ s. c ∷ s) (rstrip-eq-chomp (d ∷ cs) h.1)

  chomp-plain : (cs : Chars) → All IsPlain cs → chomp cs ≡ cs
  unfolding chomp
  chomp-plain [] h = refl
  chomp-plain (c ∷ []) h = elim (Bool-cases (c == 10)) [
    | inl e ↦
        let same : c ≡ 10 = ground (arith, e) in
        ground (arith, h.0.0, ap is_space same, newline_space)
    | inr e ↦ rw e refl
  ]
  chomp-plain (c ∷ d ∷ cs) h = ap (λ s. c ∷ s) (chomp-plain (d ∷ cs) h.1)

  match_semver-rstrip :
      (cs : Chars) (v : Version)
      → match_semver u cs ≡ some v
      → match_semver u (rstrip u cs) ≡ some v
  match_semver-rstrip cs v h =
      let plain = match_semver-IsPlain cs v h in
      let same : chomp (rstrip u cs) ≡ chomp cs =
        ap chomp (rstrip-eq-chomp cs plain) ∙ chomp-plain (chomp cs) plain in
      unfold match_semver in rw same h

  abbrev pub pinned : Chars → Chars
  pinned pin = b'=' ∷ b'=' ∷ pin

  strip-pinned : (pin : Chars) → strip u (pinned pin) ≡ pinned (rstrip u pin)
  unfolding strip lstrip
  strip-pinned pin = rw u.equals_no_space (
      rstrip-head b'=' (b'=' ∷ pin) u.equals_no_space
      ∙ ap (λ s. b'=' ∷ s) (rstrip-head b'=' pin u.equals_no_space))

  parse_constraint-pinned :
      (pin : Chars) (v : Version)
      → match_semver u pin ≡ some v
      → parse_constraint u (strip u (pinned pin)) ≡ some (equal, v)
  unfolding parse_constraint
  parse_constraint-pinned pin v h = rw (strip-pinned pin, match_semver-rstrip pin v h) refl

  one_constraint :
      (pin : Chars) (v : Version)
      → match_semver u pin ≡ some v
      → split_on b',' (pinned pin) ≡ pinned pin ∷ []
  one_constraint pin v h = split_on-last b',' (pinned pin) (
    omega arith,
    (
      omega arith,
      All-chomp (λ c. c ≢ b',') pin (omega arith)
          (commas (chomp pin) (match_semver-IsPlain pin v h)),
    ),
  )
    where
      commas : (cs : Chars) → All IsPlain cs → All (λ c. c ≢ b',') cs
      commas [] all_plain = tt
      commas (c ∷ cs) all_plain = (all_plain.0.1, commas cs all_plain.1)

  version_eq_sound : (v w : Version) → version_eq v w ≡ true → v ≡ w
  version_eq_sound v w h = ground arith

  all_hold-pinned :
      (ver v : Version) (pin : Chars)
      → match_semver u pin ≡ some v
      → all_hold u ver (pinned pin ∷ []) ≡ ok true
      → ver ≡ v
  unfolding all_hold
  all_hold-pinned ver v pin at_pin h =
      let h' = rw (parse_constraint-pinned pin v at_pin) at h in
      elim (Bool-cases (version_eq ver v)) [
        | inl e ↦ version_eq_sound ver v e
        | inr e ↦ ground (arith, h', e)
      ]

  -- If a pin is a version that a range admits, every version that the pinned range admits is admitted by
  -- that range too.
  pub version_satisfies_range-pinned :
      (pin version version_range : Chars)
      → version_satisfies_range u pin version_range ≡ ok true
      → version_satisfies_range u version (pinned pin) ≡ ok true
      → version_satisfies_range u version version_range ≡ ok true
  unfolding version_satisfies_range parse_semver
  version_satisfies_range-pinned pin version version_range admits h =
      let (v, at_pin, admits') = >>=-ok (or_value_error (match_semver u pin)) _ admits in
      let (ver, at_version, h1) = >>=-ok (or_value_error (match_semver u version)) _ h in
      let found = or_value_error-ok (match_semver u pin) at_pin in
      let h2 = subst (λ cs. all_hold u ver cs ≡ ok true) (one_constraint pin v found) h1 in
      let same = all_hold-pinned ver v pin found h2 in
      rw at_version
        (subst (λ w. all_hold u w (split_on b',' version_range) ≡ ok true) (sym same) admits')
