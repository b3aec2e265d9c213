-- ===== src/Heap/Removing.antt =====
-- Taking a block out of its list.
use native.Mathlib.Decide.{ℕ_discrete}
use rtv.Base.{
  ℕ, ◌+◌, ◌-◌, ◌≤◌, ◌<◌, ◌≡◌, inl, inr, refl, sym, ap, ◌∙◌, ◌==◌, ◌&&◌, not, leb, if◌then◌else◌,
  arith,
}
use rtv.Heap.{Bytes, next_of, prev_of, unlink, list_del, buddy_entries}
use rtv.Heap.Links.{Separate, next-unlink, prev-unlink}
use rtv.Heap.Rings.{
  Places, Rings, without, put, separate, Separate-follow, Separate-follows, small_follow,
  place_test, follow_test, follow_lem, follow,
}

module _ {bsystem : ℕ} {m : Bytes} {pos : Places} {len : ℕ → ℕ} (r : Rings bsystem m pos len) where
  -- The block behind place `i` of entry `e` is taken out.
  module _ (e i : ℕ) (he : e < buddy_entries) (hi : i < len e) where
    abbrev pub unlinked : Bytes
    unlinked = unlink m (pos e i) (pos e (i + 1 + 1))

    pub list_del_lem : list_del m (pos e (i + 1)) ≡ unlinked
    unfolding list_del
    list_del_lem = rw (r.backward e i he (omega arith), r.forward e (i + 1) he (omega arith)) refl

    next_unlinked :
        (e' k : ℕ)
        → e' < buddy_entries
        → k ≤ len e'
        → next_of unlinked (pos e' k)
          ≡ (if e' == e && k == i then pos e (i + 1 + 1) else pos e' (k + 1))
    next_unlinked e' k he' hk =
        next-unlink m (pos e i) (pos e (i + 1 + 1)) (r.small e i he (omega arith))
          (small_follow r e (i + 1) he (omega arith)) (pos e' k)
          (separate r e i e' k he he' (omega arith) hk)
          (Separate-follow r e (i + 1) e' k he he' (omega arith) hk)
        ∙ rw (place_test r e' k e i he' he hk (omega arith), r.forward e' k he' hk) refl

    prev_unlinked :
        (e' k : ℕ)
        → e' < buddy_entries
        → k ≤ len e'
        → prev_of unlinked (pos e' (k + 1)) ≡ (if e' == e && k == i + 1 then pos e i else pos e' k)
    prev_unlinked e' k he' hk =
        prev-unlink m (pos e i) (pos e (i + 1 + 1)) (r.small e i he (omega arith))
          (small_follow r e (i + 1) he (omega arith)) (pos e' (k + 1))
          (separate_back e i e' k he he' (omega arith) hk)
          (Separate-follows r e (i + 1) e' k he he' (omega arith) hk)
        ∙ rw (follow_test r e' k e (i + 1) he' he hk (omega arith), r.backward e' k he' hk) refl
      where
        separate_back :
            (e i e' k : ℕ)
            → e < buddy_entries
            → e' < buddy_entries
            → i ≤ len e
            → k ≤ len e'
            → Separate (pos e i) (pos e' (k + 1))
        separate_back e i e' k he he' hi hk =
            let (f, b) = follow_lem r e' k he' hk in
            rw f (separate r e i e' (follow r e' k) he he' hi b)

    -- The number of blocks, and the place in the old list of place `k` in the new one.
    abbrev pub shorter : ℕ → ℕ
    shorter = put len e (len e - 1)

    shorter_lem : (e' : ℕ) → shorter e' ≡ (if e' == e then len e - 1 else len e')
    unfolding put
    shorter_lem e' = refl

    abbrev kept : ℕ → ℕ → ℕ
    kept e' k = if e' == e && not (leb k i) then k + 1 else k

    without_at : (e' k : ℕ) → without pos e i e' k ≡ pos e' (kept e' k)
    unfolding without
    without_at e' k = ground arith

    kept_bound : (e' k : ℕ) → k ≤ shorter e' → kept e' k ≤ len e'
    unfolding put
    kept_bound e' k hk = elim (ℕ_discrete e' e) [
      | yes same ↦ let l = ap len same in ground arith
      | no other ↦ ground arith
    ]

    kept_last : (e' : ℕ) → kept e' (shorter e' + 1) ≡ len e' + 1
    unfolding put
    kept_last e' = elim (ℕ_discrete e' e) [
      | yes same ↦ let l = ap len same in ground arith
      | no other ↦ ground arith
    ]

    without-forward :
        (e' k : ℕ)
        → e' < buddy_entries
        → k ≤ shorter e'
        → next_of unlinked (pos e' (kept e' k)) ≡ pos e' (kept e' (k + 1))
    without-forward e' k h hk =
        next_unlinked e' (kept e' k) h (kept_bound e' k hk) ∙ elim (ℕ_discrete e' e) [
          | yes same ↦
              rw same
                (elim (ℕ_discrete k i) [ yes eq ↦ rw eq (ground arith) | no ne ↦ ground arith ])
          | no other ↦ ground arith
        ]

    without-backward :
        (e' k : ℕ)
        → e' < buddy_entries
        → k ≤ shorter e'
        → prev_of unlinked (pos e' (kept e' (k + 1))) ≡ pos e' (kept e' k)
    without-backward e' k h hk =
        ap (λ (n : ℕ). prev_of unlinked (pos e' n)) kept_suc
        ∙ prev_unlinked e' before h before_bound
        ∙ elim (ℕ_discrete e' e) [
          | yes same ↦
              rw same
                (elim (ℕ_discrete k i) [ yes eq ↦ rw eq (ground arith) | no ne ↦ ground arith ])
          | no other ↦ ground arith
        ]
      where
        before : ℕ
        before = if e' == e && not (leb (k + 1) i) then k + 1 else k

        kept_suc : kept e' (k + 1) ≡ before + 1
        kept_suc = ground arith

        before_bound : before ≤ len e'
        before_bound =
            let b = kept_bound e' k hk in
            elim (ℕ_discrete e' e) [
              | yes same ↦ let l = ap len same in ground (arith, shorter_lem e')
              | no other ↦ ground (arith, shorter_lem e')
            ]

    pub list_del-Rings : Rings bsystem (list_del m (pos e (i + 1))) (without pos e i) shorter
    list_del-Rings = rw list_del_lem (record {
      first = λ e' h. without_at e' 0 ∙ ap (pos e') (ground arith) ∙ r.first e' h;
      last = λ e' h.
          without_at e' (shorter e' + 1)
          ∙ ap (pos e') (kept_last e')
          ∙ r.last e' h
          ∙ ap (pos e') (ground arith)
          ∙ sym (without_at e' 0);
      forward =
          λ e' k h hk. rw (without_at e' k, without_at e' (k + 1)) (without-forward e' k h hk);
      backward =
          λ e' k h hk. rw (without_at e' k, without_at e' (k + 1)) (without-backward e' k h hk);
      small = λ e' k h hk. rw (without_at e' k) (r.small e' (kept e' k) h (kept_bound e' k hk));
      apart = λ a k b l ha hb hk hl.
          rw (without_at a k, without_at b l)
            (elim (r.apart a (kept a k) b (kept b l) ha hb (kept_bound a k hk)
              (kept_bound b l hl)) [ inl (ab, kl) ↦ inl (ab, ground arith) | inr far ↦ inr far ]);
    })
