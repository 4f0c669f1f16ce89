-- ===== src/Core/Node/Stacks.antt =====
-- What wiring a node and taking it apart do to the stacks and the task deque.
use inet_forth.Net.{Value, load}
use inet_forth.Core.{Task, Worker, Program, stack_pop, pop_value, stack_push, worker_add_task}
use inet_forth.Core.Node.{
  reconnect_input, reconnect_output, keep_task, reconnect_inputs, reconnect_outputs, add_found,
  worker_reconnect_node,
}
use mathlib.Core.List.{append_assoc, append-nil}
use inet_forth.Base.{
  >>=-eq-ok, List, Option, [], ap, arith, err-ne-ok, length, length-append, none, ok, ok-injective,
  refl, some, subst, suc, sym, zero, ℕ, ◌++◌, ◌+◌, ◌∙◌, ◌∷◌, ◌≡◌,
}

-- `w'` differs from `w` at most in its value stack and its heap.
pub record SameRest (w w' : Worker) : Type 0 where
  pub task_deque : w'.task_deque ≡ w.task_deque
  pub return_stack : w'.return_stack ≡ w.return_stack

pop_value-eq_ok :
    (w : Worker) (st : List Value) {v : Value} {w' : Worker}
    → pop_value w st ≡ ok (v, w')
    → (rest : List Value) × (st ≡ v ∷ rest) × (w' ≡ record w { value_stack = rest })
unfolding pop_value
pop_value-eq_ok w [] e = absurd (err-ne-ok e)
pop_value-eq_ok w (v ∷ rest) e = (rest, ground arith, ground arith)

stack_pop-eq_ok :
    (w : Worker) {v : Value} {w' : Worker}
    → stack_pop w ≡ ok (v, w')
    → (rest : List Value) × (w.value_stack ≡ v ∷ rest) × (w' ≡ record w { value_stack = rest })
unfolding stack_pop
stack_pop-eq_ok w e = pop_value-eq_ok w w.value_stack e

Popped : Worker → ℕ → Worker → Type 0
Popped w n w' =
    (inputs : List Value) × (w.value_stack ≡ inputs ++ w'.value_stack)
    × (length inputs ≡ n)
    × SameRest w w'

reconnect_inputs-Popped :
    (p : Program) (w : Worker) (node : ℕ) (found : Option Task) (n : ℕ) {o : Option Task}
    {w' : Worker}
    → reconnect_inputs p w node found n ≡ ok (o, w')
    → Popped w n w'
unfolding reconnect_inputs Popped
reconnect_inputs-Popped p w node found zero {o} {w'} e =
    subst (Popped w 0) (ap (λ (x : Option Task × Worker). x.1) (ok-injective e))
      ([], refl, refl, record { task_deque = refl; return_stack = refl })
reconnect_inputs-Popped p w node found (suc n) e =
    let ((v, w₁), popped, e₁) = >>=-eq-ok (stack_pop w) _ e in
    let ((t, h), input, e₂) = >>=-eq-ok (reconnect_input p w₁.heap node n v) _ e₁ in
    let (found', kept, e₃) = >>=-eq-ok (keep_task found t) _ e₂ in
    let (inputs, split, len, same) =
      reconnect_inputs-Popped p (record w₁ { heap = h }) node found' n e₃ in
    let (rest, top, left) = stack_pop-eq_ok w popped in
    (
      v ∷ inputs,
      top ∙ ap (◌∷◌ v) (ap (λ (x : Worker). x.value_stack) (sym left) ∙ split),
      ap suc len,
      record {
        task_deque = same.task_deque ∙ ap (λ (x : Worker). x.task_deque) left;
        return_stack = same.return_stack ∙ ap (λ (x : Worker). x.return_stack) left;
      },
    )

Pushed : Worker → ℕ → Worker → Type 0
Pushed w n w' =
    (outputs : List Value) × (w'.value_stack ≡ outputs ++ w.value_stack)
    × (length outputs ≡ n)
    × SameRest w w'

reconnect_outputs-Pushed :
    (p : Program) (w : Worker) (node n index : ℕ) {w' : Worker}
    → reconnect_outputs p w node n index ≡ ok w'
    → Pushed w n w'
unfolding reconnect_outputs Pushed
reconnect_outputs-Pushed p w node zero index e =
    subst (Pushed w 0) (ok-injective e)
      ([], refl, refl, record { task_deque = refl; return_stack = refl })
reconnect_outputs-Pushed p w node (suc n) index e =
    let ((v, h), output, e₁) = >>=-eq-ok (reconnect_output p w.heap node index) _ e in
    let (outputs, split, len, same) =
      reconnect_outputs-Pushed p (stack_push (record w { heap = h }) v) node n (index + 1) e₁ in
    (
      outputs ++ v ∷ [],
      split ∙ sym (append_assoc outputs (v ∷ []) w.value_stack),
      omega (arith, len, length-append outputs (v ∷ [])),
      record { task_deque = same.task_deque; return_stack = same.return_stack },
    )

abbrev pub as_list {ℓ} : {A : Type ℓ} → Option A → List A
as_list none = []
as_list (some a) = a ∷ []

add_found-fields :
    (w : Worker) (found : Option Task)
    → ((add_found w found).task_deque ≡ w.task_deque ++ as_list found)
      × ((add_found w found).value_stack ≡ w.value_stack)
      × ((add_found w found).return_stack ≡ w.return_stack)
unfolding worker_add_task
add_found-fields w none = (sym (append-nil w.task_deque), refl, refl)
add_found-fields w (some t) = (refl, refl, refl)

-- Wiring a new node of constructor `c`, where it succeeds, takes as many values off the stack as the
-- constructor has inputs and puts as many on it as it has outputs; it adds at most one task, at the
-- back of the deque, and leaves the return stack alone.
pub worker_reconnect_node_arity :
    (p : Program) (w : Worker) (node c : ℕ) {w' : Worker}
    → (w.heap.nodes node).ctor ≡ some c
    → worker_reconnect_node p w node ≡ ok w'
    → (inputs : List Value) × (outputs : List Value) × (rest : List Value) × (found : Option Task)
      × (w.value_stack ≡ inputs ++ rest)
      × (w'.value_stack ≡ outputs ++ rest)
      × (length inputs ≡ (p.ctors c).input_arity)
      × (length outputs ≡ (p.ctors c).output_arity)
      × (w'.task_deque ≡ w.task_deque ++ as_list found)
      × (w'.return_stack ≡ w.return_stack)
unfolding worker_reconnect_node Popped Pushed
worker_reconnect_node_arity p w node c {w'} at run =
    let e : _ ≡ ok w' = rw (at, worker_reconnect_node, load) at run in
    let ((found, w₁), ins, e₁) =
      >>=-eq-ok (reconnect_inputs p w node none (p.ctors c).input_arity) _ e in
    let (w₂, outs, e₂) =
      >>=-eq-ok (reconnect_outputs p w₁ node (p.ctors c).output_arity (p.ctors c).input_arity) _
        e₁ in
    let (inputs, split, ilen, same) =
      reconnect_inputs-Popped p w node none (p.ctors c).input_arity ins in
    let (outputs, join, olen, same') =
      reconnect_outputs-Pushed p w₁ node (p.ctors c).output_arity (p.ctors c).input_arity outs in
    let (deque, stack, frames) = add_found-fields w₂ found in
    let last : add_found w₂ found ≡ w' = ok-injective e₂ in
    (
      inputs,
      outputs,
      w₁.value_stack,
      found,
      split,
      subst (λ (x : Worker). x.value_stack ≡ outputs ++ w₁.value_stack) last (stack ∙ join),
      ilen,
      olen,
      subst (λ (x : Worker). x.task_deque ≡ w.task_deque ++ as_list found) last
          (deque ∙ ap (λ (d : List Task). d ++ as_list found) (same'.task_deque ∙ same.task_deque)),
      subst (λ (x : Worker). x.return_stack ≡ w.return_stack) last
          (frames ∙ same'.return_stack ∙ same.return_stack),
    )
