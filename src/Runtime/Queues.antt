-- ===== src/Runtime/Queues.antt =====
-- What holds of the messages in the two queues.
use prf.Base.{ℕ, suc, ◌≤◌, ◌<◌, ◌≡◌, ◌∙◌, sym, ap, true, some, List, [], ◌∷◌, ◌++◌, arith}
use prf.Rank.{Rank}
use prf.Messages.{
  ExecutorMessage, execute, start_update_cluster, finalize_transaction, register_transaction,
  PlannerMessage,
}
use prf.Planner.{PlannerManager, handle_message}
use prf.Planner.Sent.{is_plan}
use prf.Planner.Dispatch.{IsSound, handle_message-IsSound}
use prf.Planner.Pending.{Strict, Strict-Legal, handle_messages, AllStrict, AllStrict-snoc}

-- Every element has the property.
abbrev pub All : {A : Type 0} → (A → Type 0) → List A → Type 0
All P [] = Unit
All P (x ∷ xs) = P x × All P xs

pub All-map :
    {A : Type 0} (P Q : A → Type 0) (xs : List A) → ((x : A) → P x → Q x) → All P xs → All Q xs
All-map P Q [] f a = tt
All-map P Q (x ∷ xs) f a = (f x a.0, All-map P Q xs f a.1)

pub All-snoc :
    {A : Type 0} (P : A → Type 0) (xs : List A) (x : A) → All P xs → P x → All P (xs ++ x ∷ [])
All-snoc P [] x a p = (p, tt)
All-snoc P (y ∷ xs) x a p = (a.0, All-snoc P xs x a.1 p)

pub All-middle :
    {A : Type 0} (P : A → Type 0) (xs ys : List A) (x : A)
    → All P (xs ++ x ∷ ys)
    → P x × ((y : A) → P y → All P (xs ++ y ∷ ys))
All-middle P [] ys x a = (a.0, λ y p. (p, a.1))
All-middle P (z ∷ xs) ys x a =
    let (here, others) = All-middle P xs ys x a.1 in (here, λ y p. (a.0, others y p))

-- The registrations in the queue are those of the IDs from `k` to the next one, in order, and an
-- execution comes after the registration.
abbrev pub Registers : ℕ → ℕ → List ExecutorMessage → Type 0
Registers next k [] = k ≡ next
Registers next k (execute id ∷ q) = (id < k) × Registers next k q
Registers next k (start_update_cluster id cluster ∷ q) = Registers next k q
Registers next k (finalize_transaction id ∷ q) = Registers next k q
Registers next k (register_transaction id ∷ q) = (id ≡ k) × Registers next (suc k) q

pub Registers-register :
    (next k : ℕ) (q : List ExecutorMessage)
    → Registers next k q
    → Registers (suc next) k (q ++ register_transaction next ∷ [])
Registers-register next k [] v = (sym v, ap suc v)
Registers-register next k (execute id ∷ q) v = (v.0, Registers-register next k q v.1)
Registers-register next k (start_update_cluster id cluster ∷ q) v = Registers-register next k q v
Registers-register next k (finalize_transaction id ∷ q) v = Registers-register next k q v
Registers-register next k (register_transaction id ∷ q) v =
    (v.0, Registers-register next (suc k) q v.1)

pub Registers-execute :
    (next k id : ℕ) (q : List ExecutorMessage)
    → Registers next k q
    → id < next
    → Registers next k (q ++ execute id ∷ [])
Registers-execute next k id [] v h = (omega (arith, v), v)
Registers-execute next k id (execute j ∷ q) v h = (v.0, Registers-execute next k id q v.1 h)
Registers-execute next k id (start_update_cluster j cluster ∷ q) v h =
    Registers-execute next k id q v h
Registers-execute next k id (finalize_transaction j ∷ q) v h = Registers-execute next k id q v h
Registers-execute next k id (register_transaction j ∷ q) v h =
    (v.0, Registers-execute next (suc k) id q v.1 h)

pub Registers-plan :
    (next k : ℕ) (q : List ExecutorMessage) (m : ExecutorMessage)
    → Registers next k q
    → is_plan m ≡ true
    → Registers next k (q ++ m ∷ [])
Registers-plan next k [] (execute id) v h = cc
Registers-plan next k [] (start_update_cluster id c) v h = v
Registers-plan next k [] (finalize_transaction id) v h = v
Registers-plan next k [] (register_transaction id) v h = cc
Registers-plan next k (execute j ∷ q) m v h = (v.0, Registers-plan next k q m v.1 h)
Registers-plan next k (start_update_cluster j cluster ∷ q) m v h = Registers-plan next k q m v h
Registers-plan next k (finalize_transaction j ∷ q) m v h = Registers-plan next k q m v h
Registers-plan next k (register_transaction j ∷ q) m v h =
    (v.0, Registers-plan next (suc k) q m v.1 h)

pub Registers-le : (next k : ℕ) (q : List ExecutorMessage) → Registers next k q → k ≤ next
Registers-le next k [] v = omega (arith, v)
Registers-le next k (execute j ∷ q) v = Registers-le next k q v.1
Registers-le next k (start_update_cluster j cluster ∷ q) v = Registers-le next k q v
Registers-le next k (finalize_transaction j ∷ q) v = Registers-le next k q v
Registers-le next k (register_transaction j ∷ q) v = omega (arith, Registers-le next (suc k) q v.1)

-- The planner `p` handles all of its messages, and `e` is what it is then.
pub record Planned (ranks : List Rank) (p : PlannerManager) (q : List PlannerMessage)
    (e : PlannerManager) : Type 0 where
  pub strict : AllStrict p q
  pub view : handle_messages p q ≡ some e
  pub sound : IsSound e
  pub sound_now : IsSound p
  pub same_ranks : e.cluster_ranks ≡ ranks
  pub same_ranks_now : p.cluster_ranks ≡ ranks

pub Planned-push :
    {ranks : List Rank} {p e : PlannerManager} {q : List PlannerMessage} (m : PlannerMessage)
    → Planned ranks p q e
    → Strict e m
    → (e' : PlannerManager) × (handle_message e m ≡ some e') × Planned ranks p (q ++ m ∷ []) e'
Planned-push {p} {e} {q} m v s =
    let (e', h, sound', same) = handle_message-IsSound e m v.sound (Strict-Legal e m s) in
    let (strict', view') = AllStrict-snoc p e e' q m v.strict v.view s h in
    (
      e',
      h,
      record {
        strict = strict';
        view = view';
        sound = sound';
        sound_now = v.sound_now;
        same_ranks = same ∙ v.same_ranks;
        same_ranks_now = v.same_ranks_now;
      },
    )

pub Planned-receive :
    {ranks : List Rank} {p p' e : PlannerManager} {q : List PlannerMessage} (m : PlannerMessage)
    → Planned ranks p (m ∷ q) e
    → handle_message p m ≡ some p'
    → Planned ranks p' q e
unfolding handle_messages
Planned-receive {p} {p'} {e} {q} m v h =
    let (p1, h1, sound', same) =
      handle_message-IsSound p m v.sound_now (Strict-Legal p m v.strict.0) in
    let e1 : p1 ≡ p' = ground arith in
    record {
      strict = v.strict.1 p' h;
      view = rw h at v.view;
      sound = v.sound;
      sound_now = rw e1 at sound';
      same_ranks = v.same_ranks;
      same_ranks_now =
          (let s1 : p'.cluster_ranks ≡ p.cluster_ranks = rw e1 at same in s1) ∙ v.same_ranks_now;
    }

-- The head of the planner's queue is handled with no fault.
pub Planned-handle :
    {ranks : List Rank} {p e : PlannerManager} {q : List PlannerMessage} (m : PlannerMessage)
    → Planned ranks p (m ∷ q) e
    → (p' : PlannerManager) × (handle_message p m ≡ some p')
Planned-handle {p} m v =
    let (p1, h1, _, _) = handle_message-IsSound p m v.sound_now (Strict-Legal p m v.strict.0) in
    (p1, h1)
