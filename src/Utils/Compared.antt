-- ===== src/Utils/Compared.antt =====
-- What strlen and strncmp return.
use native.Mathlib.Decide.{ℕ_discrete}
use rtv.Base.{
  ℕ, zero, suc, ◌+◌, ◌≤◌, ◌<◌, ◌≡◌, ◌≢◌, ◌∙◌, refl, arith, true, false, not, ◌||◌, ◌==◌, some,
}
use rtv.Utils.Strings.{Chars, count_chars, strlen, int_difference, compare_chars, strncmp}

count_chars-next :
    (str : Chars) (fuel len : ℕ)
    → str len ≢ 0
    → count_chars str (suc fuel) len ≡ count_chars str fuel (len + 1)
unfolding count_chars
count_chars-next str fuel len more = rw test
  where
    test : (str len == 0) ≡ false
    test = ground arith

count_chars_lem :
    (str : Chars) (fuel left len : ℕ)
    → left < fuel
    → str (len + left) ≡ 0
    → ((j : ℕ) → j < left → str (len + j) ≢ 0)
    → count_chars str fuel len ≡ some (len + left)
count_chars_lem str zero left len enough at_end before = absurd (omega arith)
count_chars_lem str (suc fuel) zero len enough at_end before = unfold count_chars in rw (test, same)
  where
    same : len + 0 ≡ len
    same = omega arith

    test : (str len == 0) ≡ true
    test = ground (arith, rw same at at_end)
count_chars_lem str (suc fuel) (suc left) len enough at_end before =
    count_chars-next str fuel len (rw here at (before 0 (omega arith)))
    ∙ rw moved (count_chars_lem str fuel left (len + 1) (omega arith) (rw moved at at_end) later)
  where
    here : len + 0 ≡ len
    here = omega arith

    moved : len + suc left ≡ len + 1 + left
    moved = omega arith

    later : (j : ℕ) → j < left → str (len + 1 + j) ≢ 0
    later j lt = rw shifted at (before (suc j) (omega arith))
      where
        shifted : len + suc j ≡ len + 1 + j
        shifted = omega arith

-- With more fuel than the string has characters, `strlen` returns the offset of the first zero byte.
pub strlen_lem :
    (str : Chars) (fuel n : ℕ)
    → n < fuel
    → str n ≡ 0
    → ((j : ℕ) → j < n → str j ≢ 0)
    → strlen fuel str ≡ some n
unfolding strlen
strlen_lem str fuel n enough at_end before =
    count_chars_lem str fuel n 0 enough (rw (start n) at_end) (λ j lt. rw (start j) (before j lt))
    ∙ rw (start n)
  where
    start : (k : ℕ) → 0 + k ≡ k
    start k = omega arith

-- The first `k` characters of both strings are the same, and no string ends among them.
abbrev pub SameUpto : Chars → Chars → (i k : ℕ) → Type 0
SameUpto s1 s2 i k = (j : ℕ) → i ≤ j → j < i + k → (s1 j ≡ s2 j) × (s1 j ≢ 0)

-- The two ways in which a comparison of at most `n` characters from offset `i` on ends.
pub data Compared (s1 s2 : Chars) (n i r : ℕ) : Type 0 where
  equal :
      (k : ℕ)
      → k ≤ n
      → SameUpto s1 s2 i k
      → (k < n → (s1 (i + k) ≡ 0) × (s2 (i + k) ≡ 0))
      → r ≡ 0
      → Compared s1 s2 n i r
  differs :
      (k : ℕ)
      → k < n
      → SameUpto s1 s2 i k
      → s1 (i + k) ≢ s2 (i + k)
      → r ≡ int_difference (s1 (i + k)) (s2 (i + k))
      → Compared s1 s2 n i r

int_difference-same : (c : ℕ) → int_difference c c ≡ 0
unfolding int_difference
int_difference-same c = omega arith

module _ (s1 s2 : Chars) where
  module _ (n i c1 c2 : ℕ) where
    compare_chars-stops :
        (s1 i == 0 || not (s1 i == s2 i)) ≡ true
        → compare_chars s1 s2 (suc n) i c1 c2 ≡ int_difference (s1 i) (s2 i)
    unfolding compare_chars
    compare_chars-stops e = rw e

    compare_chars-next :
        (s1 i == 0 || not (s1 i == s2 i)) ≡ false
        → compare_chars s1 s2 (suc n) i c1 c2 ≡ compare_chars s1 s2 n (i + 1) (s1 i) (s2 i)
    unfolding compare_chars
    compare_chars-next e = rw e

  Compared-next :
      (n i r : ℕ) → s1 i ≡ s2 i → s1 i ≢ 0 → Compared s1 s2 n (i + 1) r → Compared s1 s2 (suc n) i r
  Compared-next n i r same more (equal k le upto ends e) =
      equal (suc k) (omega arith) (λ j lo hi. ground (arith, upto j, at_start j))
        (λ lt. rw moved (ends (omega arith))) e
    where
      moved : i + suc k ≡ i + 1 + k
      moved = omega arith

      at_start : (j : ℕ) → j ≡ i → (s1 j ≡ s2 j) × (s1 j ≢ 0)
      at_start j at = rw at (same, more)
  Compared-next n i r same more (differs k lt upto ne e) =
      differs (suc k) (omega arith) (λ j lo hi. ground (arith, upto j, at_start j)) (rw moved ne)
        (rw moved e)
    where
      moved : i + suc k ≡ i + 1 + k
      moved = omega arith

      at_start : (j : ℕ) → j ≡ i → (s1 j ≡ s2 j) × (s1 j ≢ 0)
      at_start j at = rw at (same, more)

  compare_chars-Compared :
      (n i c1 c2 : ℕ) → c1 ≡ c2 → Compared s1 s2 n i (compare_chars s1 s2 n i c1 c2)
  compare_chars-Compared zero i c1 c2 e =
      equal 0 (omega arith) (λ j lo hi. absurd (omega arith)) (λ lt. absurd (omega arith))
        (unfold compare_chars in rw e (int_difference-same c2))
  compare_chars-Compared (suc n) i c1 c2 e = elim (ℕ_discrete (s1 i) (s2 i)) [
    | no ne ↦
        rw (compare_chars-stops n i c1 c2 (ground arith))
          (differs 0 (omega arith) (λ j lo hi. absurd (omega arith)) (rw here ne) (rw here))
    | yes same ↦ elim (ℕ_discrete (s1 i) 0) [
      | yes ends ↦ rw (compare_chars-stops n i c1 c2 (ground arith)) (
          equal 0 (omega arith) (λ j lo hi. absurd (omega arith))
            (λ _. rw here (ends, cc (same, ends))) (rw same (int_difference-same (s2 i))))
      | no more ↦
          rw (compare_chars-next n i c1 c2 (ground arith))
            (Compared-next n i _ same more (compare_chars-Compared n (i + 1) (s1 i) (s2 i) same))
    ]
  ]
    where
      here : i + 0 ≡ i
      here = omega arith

  -- `strncmp` passes over the characters that both strings share, at most `n`, up to the first place
  -- where they differ, and returns the difference of the bytes there; it returns 0 where it has passed
  -- `n` characters or both strings end at the same place before that.
  pub strncmp-Compared : (n : ℕ) → Compared s1 s2 n 0 (strncmp s1 s2 n)
  unfolding strncmp
  strncmp-Compared n = compare_chars-Compared n 0 0 0 refl
