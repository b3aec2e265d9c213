-- ===== src/Spinlock/Serving.antt =====
-- What each step makes of the queue.
use native.Mathlib.Decide.{ℕ_discrete}
use rtv.Base.{ℕ, ◌+◌, ◌^◌, ◌≤◌, ◌<◌, ◌≡◌, ◌≢◌, ap, ◌==◌, true, false, arith}
use rtv.Spinlock.{u16}
use rtv.Spinlock.Contended.{away, waiting, holding, Contest, put_standing}
use rtv.Spinlock.Queue.{
  stage, ticket, IsQueue, put_number, put_number_lem, stage-put, ticket-put, queue_max,
}

module _ {cpus : ℕ} {s : Contest} (few : cpus ≤ 2 ^ 16) {lo hi : ℕ} {number owner_of : ℕ → ℕ}
    (h : IsQueue cpus s lo hi number owner_of) where
  standing_at : (p q : ℕ) → q ≡ p → stage (s.standing q) ≡ stage (s.standing p)
  standing_at p q same = ap (λ (n : ℕ). stage (s.standing n)) same

  pub take_ticket-IsQueue :
      (p : ℕ)
      → p < cpus
      → stage (s.standing p) ≡ 0
      → IsQueue cpus
          (record {
            lock = record { next = u16 (s.lock.next + 1); owner = s.lock.owner };
            standing = put_standing s.standing p (waiting (s.lock.next));
          })
          lo
          (hi + 1)
          (put_number number p hi)
          (put_number owner_of hi p)
  take_ticket-IsQueue p lt idle = record {
    next = let n = h.next in omega arith;
    owner = h.owner;
    order = let o = h.order in omega arith;
    out = λ t a b. elim (ℕ_discrete t hi) [
      | yes top ↦ rw top (
          rw (put_number_lem owner_of hi p hi, here hi)
            (
              lt,
              ground (arith, stage-put s.standing p (waiting s.lock.next) p),
              ground (arith, put_number_lem number p hi p),
            ))
      | no ne ↦
          let (x, y, z) = h.out t a (omega arith) in
          let other : owner_of t ≢ p =
            λ same. let k = standing_at p (owner_of t) same in omega arith in
          rw (put_number_lem owner_of hi p t, there hi t ne)
            (
              x,
              ground (arith, stage-put s.standing p (waiting s.lock.next) (owner_of t)),
              ground (arith, put_number_lem number p hi (owner_of t)),
            )
    ];
    numbered = λ q on. elim (ℕ_discrete q p) [
      | yes new ↦ rw new (
          rw (put_number_lem number p hi p, here p)
            (omega arith, omega arith, ground (arith, put_number_lem owner_of hi p hi)))
      | no ne ↦
          let (x, y, z) =
            h.numbered q
              (λ none. on (ground (arith, stage-put s.standing p (waiting s.lock.next) q))) in
          rw (put_number_lem number p hi q, there p q ne)
            (x, omega arith, ground (arith, put_number_lem owner_of hi p (number q)))
    ];
    same = λ q on.
        let n = h.next in
        let o = h.same q in
        ground (
          arith,
          stage-put s.standing p (waiting s.lock.next) q,
          ticket-put s.standing p (waiting s.lock.next) q,
          put_number_lem number p hi q,
          o,
        );
    first = λ q on. ground (
      arith,
      stage-put s.standing p (waiting s.lock.next) q,
      put_number_lem number p hi q,
      h.first q,
    );
  }
    where
      o_le : lo ≤ hi
      o_le = h.order

      here : (n : ℕ) → n == n ≡ true
      here n = ground arith

      there : (n q : ℕ) → ◌≢◌ {A = ℕ} q n → q == n ≡ false
      there n q ne = ground arith

  -- The processor whose ticket is up has the lowest number.
  waiting_first :
      (p : ℕ) → stage (s.standing p) ≡ 1 → ticket (s.standing p) ≡ s.lock.owner → number p ≡ lo
  waiting_first p queued up =
      let (x, y, z) = h.numbered p (λ none. omega arith) in
      let t = h.same p queued in let o = h.owner in let m = queue_max h in omega arith

  pub end_wait-IsQueue :
      (p : ℕ)
      → stage (s.standing p) ≡ 1
      → ticket (s.standing p) ≡ s.lock.owner
      → IsQueue cpus
          (record s { standing = put_standing s.standing p holding })
          lo
          hi
          number
          owner_of
  end_wait-IsQueue p queued up = record {
    next = h.next;
    owner = h.owner;
    order = h.order;
    out = λ t a b.
        let (x, y, z) = h.out t a b in
        (x, λ none. ground (arith, stage-put s.standing p holding (owner_of t)), z);
    numbered = λ q on.
        h.numbered q
          (λ none. on (ground (arith, stage-put s.standing p holding q, standing_at p q)));
    same = λ q on.
        ground
          (arith, stage-put s.standing p holding q, ticket-put s.standing p holding q, h.same q);
    first = λ q on. elim (ℕ_discrete q p) [
      | yes new ↦ rw new (waiting_first p queued up)
      | no ne ↦ h.first q (ground (arith, stage-put s.standing p holding q))
    ];
  }

  -- No other processor has the lowest number.
  pub only_first :
      (p q : ℕ)
      → stage (s.standing p) ≢ 0
      → stage (s.standing q) ≢ 0
      → number p ≡ lo
      → number q ≡ lo
      → q ≡ p
  only_first p q on on' at at' =
      let (x, y, z) = h.numbered p on in
      let (x', y', z') = h.numbered q on' in
      let o = ap owner_of at in let o' = ap owner_of at' in omega arith

  pub release-IsQueue :
      (p : ℕ)
      → stage (s.standing p) ≡ 2
      → IsQueue cpus
          (record {
            lock = record { next = s.lock.next; owner = u16 (s.lock.owner + 1) };
            standing = put_standing s.standing p away;
          })
          (lo + 1)
          hi
          number
          owner_of
  release-IsQueue p held = record {
    next = h.next;
    owner = let o = h.owner in omega arith;
    order =
        let (x, y, z) = h.numbered p (λ none. omega arith) in let f = h.first p held in omega arith;
    out = λ t a b.
        let (x, y, z) = h.out t (omega arith) b in
        let f = h.first p held in
        let other : owner_of t ≢ p = λ same. let n = ap number same in omega arith in
        (x, λ none. ground (arith, stage-put s.standing p away (owner_of t)), z);
    numbered = λ q on.
        let still : stage (s.standing q) ≢ 0 =
          λ none. on (ground (arith, stage-put s.standing p away q)) in
        let (x, y, z) = h.numbered q still in
        let ne : q ≢ p = λ same. on (ground (arith, stage-put s.standing p away q)) in
        let f = h.first p held in
        let low : number q ≢ lo = λ at. ne (only_first p q (λ none. omega arith) still f at) in
        (omega arith, y, z);
    same = λ q on.
        ground (arith, stage-put s.standing p away q, ticket-put s.standing p away q, h.same q);
    first = λ q on.
        let f = h.first p held in
        let two : stage (s.standing q) ≡ 2 = ground (arith, stage-put s.standing p away q) in
        let g = h.first q two in
        let ne : q ≢ p = λ same. ground (arith, stage-put s.standing p away q) in
        absurd (ne (only_first p q (λ none. omega arith) (λ none. omega arith) f g));
  }
