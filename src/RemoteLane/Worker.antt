-- ===== src/RemoteLane/Worker.antt =====
-- The proxy of a lane in a worker thread (RemoteLaneWorker): calls that wait for an answer, and the
-- events of the worker. A promise is the id of its call; that it is resolved or rejected is an entry
-- of `settled`, the last one first. Workers are numbered in the order they are started.
pub mod Accounts
use nightpass.Base.{
  ℕ, suc, ◌+◌, Bool, true, false, List, [], ◌∷◌, ◌++◌, map, any, Option, none, some, Text, codes,
  or_else, ◌==◌, if◌then◌else◌,
}
use nightpass.Base.Counts.{drop_id}

pub data Outcome : Type 0 where
  resolved : Text → Outcome
  rejected : Text → Outcome

-- `{id, ok, result, error}`, where the result and the error are texts.
pub record Message : Type 0 where
  pub id : ℕ
  pub ok : Bool
  pub result : Text
  pub error : Option Text

pub record Proxy : Type 0 where
  pub worker : Option ℕ
  pub started : ℕ
  pub next_id : ℕ
  pub pending : List ℕ
  pub settled : List (ℕ × Outcome)

abbrev pub fresh : Proxy
fresh = record { worker = none; started = 0; next_id = 1; pending = []; settled = [] }

-- The worker that is there, or a new one.
unfoldable pub spawn : Proxy → Proxy
spawn p = elim p.worker [
  | some w ↦ p
  | none ↦ record p { worker = some p.started; started = suc p.started }
]

-- `call`: the id is that of the promise, which is pending afterwards.
unfoldable pub call : Proxy → Proxy
unfolding spawn
call p = record (spawn p) { next_id = suc p.next_id; pending = p.pending ++ (p.next_id ∷ []) }

abbrev pub outcome_of : Message → Outcome
outcome_of m =
    if m.ok
    then resolved m.result
    else rejected (or_else m.error (codes "worker returned no error"))

unfoldable pub on_message : Message → Proxy → Proxy
unfolding drop_id
on_message m p =
    if any (λ j. j == m.id) p.pending
    then record p { pending = drop_id m.id p.pending; settled = (m.id, outcome_of m) ∷ p.settled }
    else p

-- `failAll`
unfoldable pub fail_all : Text → Proxy → Proxy
fail_all error p = record p {
  pending = [];
  settled = map (λ id. (id, rejected error)) p.pending ++ p.settled;
}

abbrev pub is_worker : ℕ → Option ℕ → Bool
is_worker w none = false
is_worker w (some v) = v == w

-- The exit of worker `w`.
unfoldable pub on_exit : ℕ → Text → Proxy → Proxy
unfolding fail_all
on_exit w error p = fail_all error (if is_worker w p.worker then record p { worker = none } else p)

-- `dispose`, after its call has been answered.
unfoldable pub forget_worker : Proxy → Proxy
forget_worker p = record p { worker = none }

-- What can happen to a proxy: a call, the first half of a dispose among them, an event of a worker, or
-- the second half of a dispose.
pub data Step : Proxy → Proxy → Type 0 where
  called : {p : Proxy} → Step p (call p)
  answered : {p : Proxy} (m : Message) → Step p (on_message m p)
  crashed : {p : Proxy} (error : Text) → Step p (fail_all error p)
  exited : {p : Proxy} (w : ℕ) (error : Text) → Step p (on_exit w error p)
  disposed : {p : Proxy} → Step p (forget_worker p)

pub data Reach : Proxy → Type 0 where
  begin : Reach fresh
  next : {p q : Proxy} → Reach p → Step p q → Reach q
