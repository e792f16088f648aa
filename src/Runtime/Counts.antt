-- ===== src/Runtime/Counts.antt =====
-- Counting tasks, messages and IDs.
use prf.Base.{ℕ, ◌+◌, ◌≡◌, Bool, true, false, ◌&&◌, List, [], ◌∷◌, ◌++◌, arith, ◌==◌, contains}
use prf.Messages.{
  ExecutorMessage, execute, start_update_cluster, finalize_transaction, register_transaction,
}
use prf.Executor.{Task, Stage, requested, announced, generated, registered, buffered, ended}

abbrev pub bit : Bool → ℕ
bit true = 1
bit false = 0

-- How often an ID stands in a list.
abbrev pub times : ℕ → List ℕ → ℕ
times t [] = 0
times t (x ∷ xs) = bit (t == x) + times t xs

pub times-append : (t : ℕ) (xs ys : List ℕ) → times t (xs ++ ys) ≡ times t xs + times t ys
times-append t [] ys = omega arith
times-append t (x ∷ xs) ys = omega (arith, times-append t xs ys)

-- Is the message the execution of the transaction?
abbrev pub is_execute : ℕ → ExecutorMessage → Bool
is_execute t (execute id) = t == id
is_execute t (start_update_cluster id cluster) = false
is_execute t (finalize_transaction id) = false
is_execute t (register_transaction id) = false

abbrev pub executes : ℕ → List ExecutorMessage → ℕ
executes t [] = 0
executes t (m ∷ ms) = bit (is_execute t m) + executes t ms

pub executes-append :
    (t : ℕ) (xs ys : List ExecutorMessage) → executes t (xs ++ ys) ≡ executes t xs + executes t ys
executes-append t [] ys = omega arith
executes-append t (x ∷ xs) ys = omega (arith, executes-append t xs ys)

module _ {H : Type 0} where
  -- The number of tasks that pass a test.
  abbrev pub count : (Task H → Bool) → List (Task H) → ℕ
  count p [] = 0
  count p (x ∷ xs) = bit (p x) + count p xs

  pub count-append :
      (p : Task H → Bool) (xs ys : List (Task H)) → count p (xs ++ ys) ≡ count p xs + count p ys
  count-append p [] ys = omega arith
  count-append p (x ∷ xs) ys = omega (arith, count-append p xs ys)

  pub count_middle :
      (p : Task H → Bool) (xs ys : List (Task H)) (x : Task H)
      → count p (xs ++ x ∷ ys) ≡ bit (p x) + count p (xs ++ ys)
  count_middle p xs ys x = omega (arith, count-append p xs (x ∷ ys), count-append p xs ys)

  abbrev pub is_task : ℕ → ℕ → Task H → Bool
  is_task t c x = t == x.transaction_id && c == x.cluster_id

  abbrev pub is_requested : Stage H → Bool
  is_requested requested = true
  is_requested announced = false
  is_requested (generated sub) = false
  is_requested (registered futures hooks) = false
  is_requested (buffered futures) = false
  is_requested ended = false

  -- Has the task said that it runs, and not yet that it is done?
  abbrev pub is_live : Stage H → Bool
  is_live requested = false
  is_live announced = true
  is_live (generated sub) = true
  is_live (registered futures hooks) = true
  is_live (buffered futures) = true
  is_live ended = false

  -- Does the task hold the cluster as one that is still to be announced?
  abbrev pub holds : ℕ → Stage H → Bool
  holds c requested = false
  holds c announced = false
  holds c (generated sub) = false
  holds c (registered futures hooks) = contains c futures
  holds c (buffered futures) = contains c futures
  holds c ended = false

  -- The tasks of the cluster, those of them that have not begun, and those that are under way.
  abbrev pub tasks_of : ℕ → ℕ → List (Task H) → ℕ
  tasks_of t c xs = count (is_task t c) xs

  abbrev pub requests : ℕ → ℕ → List (Task H) → ℕ
  requests t c xs = count (λ x. is_task t c x && is_requested x.stage) xs

  abbrev pub lives : ℕ → ℕ → List (Task H) → ℕ
  lives t c xs = count (λ x. is_task t c x && is_live x.stage) xs

  -- The tasks of the transaction that hold the cluster.
  abbrev pub holders : ℕ → ℕ → List (Task H) → ℕ
  holders t c xs = count (λ x. t == x.transaction_id && holds c x.stage) xs
