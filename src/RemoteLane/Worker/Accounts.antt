-- ===== src/RemoteLane/Worker/Accounts.antt =====
-- No call is lost or settled twice.
use nightpass.Base.{
  ℕ, ◌+◌, ◌≤◌, ◌≡◌, refl, arith, ◌&&◌, List, [], ◌∷◌, ◌++◌, map, any, none, Text, ◌==◌, ltb, leb,
  if◌then◌else◌, Bool-cases, inl, inr, Option-cases,
}
use nightpass.Base.Counts.{count, count-append, count-drop_id}
use nightpass.RemoteLane.Worker.{
  Outcome, rejected, Message, Proxy, spawn, call, on_message, fail_all, is_worker, on_exit,
  forget_worker, Step, called, answered, crashed, exited, disposed, Reach, begin, next,
}

abbrev pub settled_ids : Proxy → List ℕ
settled_ids p = map (λ e. e.0) p.settled

-- 1 for the id of a call that was made, 0 for any other number.
abbrev pub issued : Proxy → ℕ → ℕ
issued p id = if leb 1 id && ltb id p.next_id then 1 else 0

-- Each call that was made is pending or settled, once, and nothing else is.
pub record Accounted (p : Proxy) : Type 0 where
  pub positive : 1 ≤ p.next_id
  pub once : (id : ℕ) → count id p.pending + count id (settled_ids p) ≡ issued p id

count-failed :
    (id : ℕ) (error : Text) (js : List ℕ) (done : List (ℕ × Outcome))
    → count id (map (λ e. e.0) (map (λ j. (j, rejected error)) js ++ done))
      ≡ count id js + count id (map (λ e. e.0) done)
count-failed id error [] done = omega arith
count-failed id error (j ∷ js) done = omega (arith, count-failed id error js done)

spawn-same : (p : Proxy) → (spawn p).settled ≡ p.settled
unfolding spawn
spawn-same p = elim (Option-cases p.worker) [
  | inl e ↦ rw (e, spawn) refl
  | inr (w, e) ↦ rw (e, spawn) refl
]

call-Accounted : (p : Proxy) → Accounted p → Accounted (call p)
unfolding call
call-Accounted p a = record {
  positive = omega arith;
  once = λ id. rw (spawn-same p) (
      ground (
        arith,
        a.once id,
        a.once p.next_id,
        a.positive,
        count-append id p.pending (p.next_id ∷ []),
      ));
}

on_message-Accounted : (m : Message) (p : Proxy) → Accounted p → Accounted (on_message m p)
unfolding on_message
on_message-Accounted m p a = elim (Bool-cases (any (λ j. j == m.id) p.pending)) [
  | inr e ↦ rw e a
  | inl e ↦ rw e (record {
    positive = a.positive;
    once = λ id. omega (arith, a.once id, count-drop_id id m.id p.pending e);
  })
]

fail_all-Accounted : (error : Text) (p : Proxy) → Accounted p → Accounted (fail_all error p)
unfolding fail_all
fail_all-Accounted error p a = record {
  positive = a.positive;
  once = λ id. omega (arith, count-failed id error p.pending p.settled, a.once id);
}

on_exit-Accounted : (w : ℕ) (error : Text) (p : Proxy) → Accounted p → Accounted (on_exit w error p)
unfolding on_exit
on_exit-Accounted w error p a = elim (Bool-cases (is_worker w p.worker)) [
  | inl e ↦ rw e (
      fail_all-Accounted error (record p { worker = none })
        (record { positive = a.positive; once = a.once }))
  | inr e ↦ rw e (fail_all-Accounted error p a)
]

Step-Accounted : {p q : Proxy} → Step p q → Accounted p → Accounted q
unfolding forget_worker
Step-Accounted {p} called a = call-Accounted p a
Step-Accounted {p} (answered m) a = on_message-Accounted m p a
Step-Accounted {p} (crashed error) a = fail_all-Accounted error p a
Step-Accounted {p} (exited w error) a = on_exit-Accounted w error p a
Step-Accounted {p} disposed a = record { positive = a.positive; once = a.once }

-- Whatever the order of calls, answers and events of workers, each call that was made is pending or
-- settled, exactly once, and nothing else is.
pub Reach-Accounted : (q : Proxy) → Reach q → Accounted q
Reach-Accounted q begin = record { positive = omega arith; once = λ id. ground arith }
Reach-Accounted q (next {p = o} r s) = Step-Accounted s (Reach-Accounted o r)
