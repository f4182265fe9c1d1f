-- ===== src/Coroutine/Rounds.antt =====
-- What every run of the event loop has in common, whatever coroutine it drives.
use win32_experiments.Common.{
  ℕ, zero, suc, ◌-◌, ◌∙◌, sym, ◌≡◌, refl, ap, Bool, true, false, some, inl, inr, ◌==◌, Bool-cases,
  arith, ==_iff,
}
use mathlib.Core.Path.{subst}
use win32_experiments.Coroutine.{
  Winsock, Packet, Dequeued, nothing, dequeued, Operation, Loop, at, add_op, started, round, run,
  finish_operation,
}

pub round_dequeued :
    {P S : Type 0} (w : Winsock S) (resume : Operation → Loop P → S → Loop P × S) (t : Loop P)
    (r : Dequeued × S) (p : Packet)
    → r.0 ≡ dequeued p
    → round w resume t r ≡ resume (finish_operation p) t r.1
round_dequeued w resume t (nothing, s) p e = absurd (cc)
round_dequeued w resume t (dequeued q, s) p e =
    let same : q ≡ p = cc in ap (λ x. resume (finish_operation x) t s) same

pub started-true :
    {P S : Type 0} (p q : P) (t : Loop P) (r : Bool × S)
    → r.0 ≡ true
    → started p q t r ≡ (at p t, r.1)
started-true p q t (true, s) e = refl
started-true p q t (false, s) e = absurd (cc)

pub started_counts :
    {P S : Type 0} (pending : P → ℕ) (p q : P) (t : Loop P) (r : Bool × S)
    → t.outstanding_ops ≡ 0
    → pending p ≡ 1
    → pending q ≡ 0
    → (started p q (add_op t) r).0.outstanding_ops ≡ pending (started p q (add_op t) r).0.point
started_counts pending p q t (true, s) z e f = omega arith
started_counts pending p q t (false, s) z e f = omega arith

module _ {P S : Type 0} (w : Winsock S) (resume : Operation → Loop P → S → Loop P × S) where
  pub run_done :
      (fuel : ℕ) (t : Loop P) (s : S)
      → t.outstanding_ops ≡ 0
      → run w resume (suc fuel) t s ≡ some (t, s)
  unfolding run
  run_done fuel t s z = let e : (t.outstanding_ops == 0) ≡ true = ground arith in rw (run, e)

  pub run_next :
      (fuel n : ℕ) (t : Loop P) (s : S)
      → t.outstanding_ops ≡ suc n
      → run w resume (suc fuel) t s
        ≡ run w resume fuel (round w resume t (w.dequeue s)).0 (round w resume t (w.dequeue s)).1
  unfolding run
  run_next fuel n t s z = let e : (t.outstanding_ops == 0) ≡ false = ground arith in rw (run, e)

  -- What a round keeps holds where the loop ends, and no operation is outstanding then.
  pub run-Keeps :
      (Holds : Loop P × S → Type 0)
      (keeps : (t : Loop P) (s : S) → Holds (t, s) → Holds (round w resume t (w.dequeue s)))
      (fuel : ℕ) (t : Loop P) (s : S) (r : Loop P × S)
      → Holds (t, s)
      → run w resume fuel t s ≡ some r
      → Holds r × (r.0.outstanding_ops ≡ 0)
  unfolding run
  run-Keeps Holds keeps zero t s r h e = absurd (cc)
  run-Keeps Holds keeps (suc fuel) t s r h e = elim (Bool-cases (t.outstanding_ops == 0)) [
    | inl b ↦
        (let z : t.outstanding_ops ≡ 0 = (==_iff t.outstanding_ops 0).0 b in
          let f = run_done fuel t s z in
          let same : ◌≡◌ {A = Loop P × S} (t, s) r = cc in
          subst (λ (x : Loop P × S). Holds x × (x.0.outstanding_ops ≡ 0)) same (h, z))
    | inr b ↦
        (let next : t.outstanding_ops ≡ suc (t.outstanding_ops - 1) = ground arith in
          let f = run_next fuel (t.outstanding_ops - 1) t s next in
          run-Keeps Holds keeps fuel (round w resume t (w.dequeue s)).0
            (round w resume t (w.dequeue s)).1 r (keeps t s h) (sym f ∙ e))
  ]
