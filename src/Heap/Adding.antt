-- ===== src/Heap/Adding.antt =====
-- Putting a block first in a list.
use native.Mathlib.Decide.{ℕ_discrete}
use rtv.Base.{
  ℕ, ◌+◌, ◌-◌, ◌^◌, ◌≤◌, ◌<◌, ◌≡◌, ◌≢◌, ◌⊎◌, inl, inr, refl, sym, ap, ◌∙◌, ◌==◌, ◌&&◌, not, false,
  if◌then◌else◌, arith,
}
use rtv.Heap.{Bytes, next_of, prev_of, link, list_add, bucket, buddy_entries}
use rtv.Heap.Links.{Apart, Separate, next-link, prev-link}
use rtv.Heap.Rings.{
  Places, Rings, with_first, put, separate, Separate-follow, Separate-follows, small_follow,
  place_test, follow_test, follow_lem, follow,
}

module _ {bsystem : ℕ} {m : Bytes} {pos : Places} {len : ℕ → ℕ} (r : Rings bsystem m pos len)
    (e a : ℕ) (he : e < buddy_entries) (fit : a < 2 ^ 64)
    (far : (e' k : ℕ) → e' < buddy_entries → k ≤ len e' → Apart a 16 (pos e' k) 16) where
  abbrev pub linked : Bytes
  linked = link m a (pos e 0) (pos e (0 + 1))

  pub list_add_lem : list_add m a (bucket bsystem e) ≡ linked
  unfolding list_add
  list_add_lem = rw (sym (r.first e he)) (rw (r.forward e 0 he (omega arith)) refl)

  far_follow : (e' k : ℕ) → e' < buddy_entries → k ≤ len e' → Apart a 16 (pos e' (k + 1)) 16
  far_follow e' k h hk = let (f, b) = follow_lem r e' k h hk in rw f (far e' (follow r e' k) h b)

  next_linked :
      (e' k : ℕ)
      → e' < buddy_entries
      → k ≤ len e'
      → next_of linked (pos e' k) ≡ (if e' == e && k == 0 then a else pos e' (k + 1))
  next_linked e' k h hk =
      next-link m a (pos e 0) (pos e (0 + 1)) fit (r.small e 0 he (omega arith))
        (small_follow r e 0 he (omega arith)) (pos e' k) (inr (far e' k h hk))
        (separate r e 0 e' k he h (omega arith) hk)
        (Separate-follow r e 0 e' k he h (omega arith) hk)
      ∙ rw (place_test r e' k e 0 h he hk (omega arith), r.forward e' k h hk, other) refl
    where
      other : (pos e' k == a) ≡ false
      other = let f = far e' k h hk in ground arith

  next_new : next_of linked a ≡ pos e (0 + 1)
  next_new =
      next-link m a (pos e 0) (pos e (0 + 1)) fit (r.small e 0 he (omega arith))
        (small_follow r e 0 he (omega arith)) a (inl refl)
        (let f = far e 0 he (omega arith) in inr (ground arith))
        (let f = far_follow e 0 he (omega arith) in inr (ground arith))
      ∙ let f = far e 0 he (omega arith) in ground arith

  prev_linked :
      (e' k : ℕ)
      → e' < buddy_entries
      → k ≤ len e'
      → prev_of linked (pos e' (k + 1)) ≡ (if e' == e && k == 0 then a else pos e' k)
  prev_linked e' k h hk =
      prev-link m a (pos e 0) (pos e (0 + 1)) fit (r.small e 0 he (omega arith))
        (small_follow r e 0 he (omega arith)) (pos e' (k + 1)) (inr (far_follow e' k h hk))
        (separate_back e' k h hk) (Separate-follows r e 0 e' k he h (omega arith) hk)
      ∙ rw (follow_test r e' k e 0 h he hk (omega arith), r.backward e' k h hk, other) refl
    where
      other : (pos e' (k + 1) == a) ≡ false
      other = let f = far_follow e' k h hk in ground arith

      separate_back :
          (e' k : ℕ) → e' < buddy_entries → k ≤ len e' → Separate (pos e 0) (pos e' (k + 1))
      separate_back e' k h hk =
          let (f, b) = follow_lem r e' k h hk in
          rw f (separate r e 0 e' (follow r e' k) he h (omega arith) b)

  prev_new : prev_of linked a ≡ pos e 0
  prev_new =
      prev-link m a (pos e 0) (pos e (0 + 1)) fit (r.small e 0 he (omega arith))
        (small_follow r e 0 he (omega arith)) a (inl refl)
        (let f = far e 0 he (omega arith) in inr (ground arith))
        (let f = far_follow e 0 he (omega arith) in inr (ground arith))
      ∙ ground arith

  abbrev pub longer : ℕ → ℕ
  longer = put len e (len e + 1)

  longer_lem : (e' : ℕ) → longer e' ≡ (if e' == e then len e + 1 else len e')
  unfolding put
  longer_lem e' = refl

  head_place : (e' : ℕ) → with_first pos e a e' 0 ≡ pos e' 0
  unfolding with_first
  head_place e' = ground arith

  new_place : with_first pos e a e (0 + 1) ≡ a
  unfolding with_first
  new_place = ground arith

  old_place : (k : ℕ) → with_first pos e a e (k + 1 + 1) ≡ pos e (k + 1)
  unfolding with_first
  old_place k = ground arith

  other_place : (e' k : ℕ) → ◌≢◌ {A = ℕ} e' e → with_first pos e a e' k ≡ pos e' k
  unfolding with_first
  other_place e' k ne = ground arith

  -- A place of the new list: the head, the new block, or one of the old list.
  data Place (e' k : ℕ) : Type 0 where
    elsewhere : ◌≢◌ {A = ℕ} e' e → k ≤ len e' → Place e' k
    at_head : e' ≡ e → k ≡ 0 → Place e' k
    at_new : e' ≡ e → k ≡ 0 + 1 → Place e' k
    at_old : (j : ℕ) → e' ≡ e → k ≡ j + 1 + 1 → j < len e → Place e' k

  place : (e' k : ℕ) → k ≤ longer e' → Place e' k
  place e' k hk = elim (ℕ_discrete e' e) [
    | yes same ↦ elim (ℕ_discrete k 0) [
      | yes z ↦ at_head same z
      | no nz ↦ elim (ℕ_discrete k 1) [
        | yes one ↦ at_new same (omega arith)
        | no more ↦ at_old (k - 2) same (omega arith) (ground (arith, longer_lem e'))
      ]
    ]
    | no other ↦ elsewhere other (ground (arith, longer_lem e'))
  ]

  with_first-forward :
      (e' k : ℕ)
      → e' < buddy_entries
      → Place e' k
      → next_of linked (with_first pos e a e' k) ≡ with_first pos e a e' (k + 1)
  with_first-forward e' k h (elsewhere ne hk) =
      rw (other_place e' k ne, other_place e' (k + 1) ne) (next_linked e' k h hk ∙ ground arith)
  with_first-forward e' k h (at_head same z) =
      rw (same, z) (rw (head_place e, new_place) (next_linked e 0 he (omega arith) ∙ ground arith))
  with_first-forward e' k h (at_new same one) =
      rw (same, one) (rw (new_place, old_place 0) next_new)
  with_first-forward e' k h (at_old j same eq lt) =
      rw (same, eq)
        (rw (old_place j, old_place (j + 1))
          (next_linked e (j + 1) he (omega arith) ∙ ground arith))

  with_first-backward :
      (e' k : ℕ)
      → e' < buddy_entries
      → Place e' k
      → prev_of linked (with_first pos e a e' (k + 1)) ≡ with_first pos e a e' k
  with_first-backward e' k h (elsewhere ne hk) =
      rw (other_place e' k ne, other_place e' (k + 1) ne) (prev_linked e' k h hk ∙ ground arith)
  with_first-backward e' k h (at_head same z) = rw (same, z) (rw (head_place e, new_place) prev_new)
  with_first-backward e' k h (at_new same one) =
      rw (same, one) (rw (new_place, old_place 0) (prev_linked e 0 he (omega arith) ∙ ground arith))
  with_first-backward e' k h (at_old j same eq lt) =
      rw (same, eq)
        (rw (old_place j, old_place (j + 1))
          (prev_linked e (j + 1) he (omega arith) ∙ ground arith))

  with_first-small : (e' k : ℕ) → e' < buddy_entries → Place e' k → with_first pos e a e' k < 2 ^ 64
  with_first-small e' k h (elsewhere ne hk) = rw (other_place e' k ne) (r.small e' k h hk)
  with_first-small e' k h (at_head same z) =
      rw (same, z) (rw (head_place e) (r.small e 0 he (omega arith)))
  with_first-small e' k h (at_new same one) = rw (same, one) (rw new_place fit)
  with_first-small e' k h (at_old j same eq lt) =
      rw (same, eq) (rw (old_place j) (r.small e (j + 1) he (omega arith)))

  -- A place that is not the new one, as a place of the old list.
  data Old (e' k : ℕ) : Type 0 where
    new : e' ≡ e → k ≡ 0 + 1 → with_first pos e a e' k ≡ a → Old e' k
    old :
        (j : ℕ)
        → j ≤ len e'
        → with_first pos e a e' k ≡ pos e' j
        → (k ≡ (if e' == e && not (j == 0) then j + 1 else j))
        → Old e' k

  former : (e' k : ℕ) → Place e' k → Old e' k
  former e' k (elsewhere ne hk) = old k hk (other_place e' k ne) (ground arith)
  former e' k (at_head same z) = old 0 (omega arith) (rw z (head_place e')) (ground arith)
  former e' k (at_new same one) = new same one (rw (same, one) new_place)
  former e' k (at_old j same eq lt) =
      let l = ap len same in old (j + 1) (omega arith) (rw (same, eq) (old_place j)) (ground arith)

  with_first-Apart :
      (b k c l : ℕ)
      → b < buddy_entries
      → c < buddy_entries
      → Old b k
      → Old c l
      → ((b ≡ c) × (k ≡ l)) ⊎ Apart (with_first pos e a b k) 16 (with_first pos e a c l) 16
  with_first-Apart b k c l hb hc (new eb ek at) (new ec el at') = inl (eb ∙ sym ec, ek ∙ sym el)
  with_first-Apart b k c l hb hc (new eb ek at) (old j hj at' el) =
      inr (rw (at, at') (far c j hc hj))
  with_first-Apart b k c l hb hc (old i hi at ek) (new ec el at') =
      inr (rw (at, at') (let f = far b i hb hi in ground arith))
  with_first-Apart b k c l hb hc (old i hi at ek) (old j hj at' el) =
      elim (r.apart b i c j hb hc hi hj) [
        | inl (bc, ij) ↦ inl (bc, ground arith)
        | inr f ↦ inr (rw (at, at') f)
      ]

  pub list_add-Rings : Rings bsystem (list_add m a (bucket bsystem e)) (with_first pos e a) longer
  list_add-Rings = rw list_add_lem (record {
    first = λ e' h. head_place e' ∙ r.first e' h;
    last = λ e' h. last_place e' h ∙ sym (head_place e');
    forward = λ e' k h hk. with_first-forward e' k h (place e' k hk);
    backward = λ e' k h hk. with_first-backward e' k h (place e' k hk);
    small = λ e' k h hk. with_first-small e' k h (place e' k hk);
    apart = λ b k c l hb hc hk hl.
        with_first-Apart b k c l hb hc (former b k (place b k hk)) (former c l (place c l hl));
  })
    where
      long : longer e ≡ len e + 1
      long = ground (arith, longer_lem e)

      last_place : (e' : ℕ) → e' < buddy_entries → with_first pos e a e' (longer e' + 1) ≡ pos e' 0
      last_place e' h = elim (ℕ_discrete e' e) [
        | yes same ↦
            rw same
              (ap (λ (n : ℕ). with_first pos e a e (n + 1)) long ∙ old_place (len e) ∙ r.last e he)
        | no other ↦
            other_place e' (longer e' + 1) other
            ∙ ap (λ (n : ℕ). pos e' (n + 1)) (ground (arith, longer_lem e'))
            ∙ r.last e' h
      ]
