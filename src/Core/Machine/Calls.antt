-- ===== src/Core/Machine/Calls.antt =====
-- The interpreter with its explicit return stack and tail calls against a recursive reading of the
-- code: a function runs its opcodes in order, and a call runs the callee to its end first.
use inet_forth.Std.Array.{Array, array_new, array_get, array_set}
use inet_forth.Net.{Value, function, load}
use inet_forth.Core.{
  Opcode, apply, literal, get_variable, set_variable, Frame, Worker, Program, frame_new,
  frame_is_finished, frame_fetch_opcode, stack_pop, variable_array_size,
}
use inet_forth.Core.Machine.{
  Work, push_frame, worker_apply, worker_execute_opcode, worker_run_frame, worker_run_one_step,
  worker_run_until, worker_work,
}
use native.Mathlib.Numerals.{add-one}
use inet_forth.Base.{
  Bool, Bool-cases, List, [], ap, arith, false, get_elem?, if◌then◌else◌, inl, inr, length, le→ltb,
  lt→ltb, ok, refl, some, suc, true, zero, ℕ, ◌+◌, ◌<◌, ◌==◌, ◌∙◌, ◌∷◌, ◌≡◌, ◌≤◌,
}

-- The worker with another return stack.
abbrev pub at : Worker → List Frame → Worker
at w rs = record w { return_stack = rs }

abbrev pub frame : ℕ → ℕ → Array Value → Frame
frame f c vs = record { cursor = c; function = f; variable_array = vs }

abbrev pub pops : Worker → List Value → Worker
pops w st = record w { value_stack = st }

-- `Runs f c vs w w'`: function `f` goes on at its opcode `c` with the variables `vs`, and returns,
-- having taken the worker from `w` to `w'`; the return stack plays no part. Whatever is not a
-- function is applied as `worker_apply` does, with any fuel from `k` on for the callbacks.
module _ (p : Program) where
  abbrev pub code : ℕ → List Opcode
  code f = (p.functions f).opcode_array

  pub data Runs : ℕ → ℕ → Array Value → Worker → Worker → Type 0 where
    returns : {f c : ℕ} {vs : Array Value} {w : Worker} → c ≡ length (code f) → Runs f c vs w w
    run_literal :
        {f c : ℕ} {vs : Array Value} {w w' : Worker} {v : Value}
        → get_elem? (code f) c ≡ some (literal v)
        → Runs f (suc c) vs (pops w (v ∷ w.value_stack)) w'
        → Runs f c vs w w'
    run_get :
        {f c i : ℕ} {vs : Array Value} {w w' : Worker} {v : Value}
        → get_elem? (code f) c ≡ some (get_variable i)
        → array_get vs i ≡ some v
        → Runs f (suc c) vs (pops w (v ∷ w.value_stack)) w'
        → Runs f c vs w w'
    run_set :
        {f c i : ℕ} {vs vs' : Array Value} {w w' : Worker} {v : Value} {st : List Value}
        → get_elem? (code f) c ≡ some (set_variable i)
        → w.value_stack ≡ v ∷ st
        → array_set vs i (some v) ≡ ok vs'
        → Runs f (suc c) vs' (pops w st) w'
        → Runs f c vs w w'
    run_call :
        {f c n g : ℕ} {vs : Array Value} {w w₁ w' : Worker} {st : List Value}
        → get_elem? (code f) c ≡ some (apply n)
        → w.value_stack ≡ function g ∷ st
        → Runs g 0 (array_new variable_array_size) (pops w st) w₁
        → Runs f (suc c) vs w₁ w'
        → Runs f c vs w w'
    run_apply :
        {f c n : ℕ} {vs : Array Value} {w w₁ w' : Worker} {t : Value} {st : List Value} (k : ℕ)
        → get_elem? (code f) c ≡ some (apply n)
        → w.value_stack ≡ t ∷ st
        → ((m : ℕ) (rs : List Frame)
            → k ≤ m
            → worker_apply p (worker_work m p) (at (pops w st) rs) t ≡ ok (at w₁ rs))
        → Runs f (suc c) vs w₁ w'
        → Runs f c vs w w'

  get_elem?-lt :
      (ops : List Opcode) (c : ℕ) {op : Opcode} → get_elem? ops c ≡ some op → c < length ops
  get_elem?-lt [] c e = cc
  get_elem?-lt (x ∷ ops) zero e = omega arith
  get_elem?-lt (x ∷ ops) (suc c) e = omega (arith, get_elem?-lt ops c e)

  -- Behind the last opcode nothing is left to run.
  returned :
      {f c : ℕ} {vs : Array Value} {w w' : Worker} → Runs f c vs w w' → c ≡ length (code f) → w ≡ w'
  returned (returns e) last = refl
  returned {f} {c} (run_literal o r) last = absurd (omega (arith, get_elem?-lt (code f) c o))
  returned {f} {c} (run_get o e r) last = absurd (omega (arith, get_elem?-lt (code f) c o))
  returned {f} {c} (run_set o e e' r) last = absurd (omega (arith, get_elem?-lt (code f) c o))
  returned {f} {c} (run_call o e r r') last = absurd (omega (arith, get_elem?-lt (code f) c o))
  returned {f} {c} (run_apply k o e a r) last = absurd (omega (arith, get_elem?-lt (code f) c o))

  -- With `m` rounds left for what follows, `run_until` gets through the rest of the function.
  record Passes (f c : ℕ) (vs : Array Value) (w w' : Worker) : Type 0 where
    rounds : ℕ
    reserve : ℕ
    passes :
        (n m base : ℕ) (rs : List Frame)
        → n ≡ rounds + m
        → reserve ≤ m
        → base ≤ length rs
        → worker_run_until n p (at w (frame f c vs ∷ rs)) base
          ≡ worker_run_until m p (at w' rs) base

  -- One round of `run_until` whose frame stands on the stack.
  one_round :
      (n base f c : ℕ) (vs : Array Value) (w w₁ : Worker) (rs : List Frame)
      → base ≤ length rs
      → worker_run_frame p (worker_work n p) (at w rs) (frame f c vs) ≡ ok w₁
      → worker_run_until (suc n) p (at w (frame f c vs ∷ rs)) base ≡ worker_run_until n p w₁ base
  unfolding worker_run_until worker_run_one_step
  one_round n base f c vs w w₁ rs le run =
      rw (lt→ltb base (suc (length rs)) (omega arith), worker_run_until)
        (rw (run, worker_run_until))

  frame_is_finished-lt :
      (f c : ℕ) (vs : Array Value)
      → c < length (code f)
      → frame_is_finished p (frame f c vs) ≡ false
  unfolding frame_is_finished
  frame_is_finished-lt f c vs lt = ground arith

  frame_is_finished-eq :
      (f c : ℕ) (vs : Array Value) → c ≡ length (code f) → frame_is_finished p (frame f c vs) ≡ true
  unfolding frame_is_finished
  frame_is_finished-eq f c vs e = ground arith

  finished_frame :
      (work : Work) (f c : ℕ) (vs : Array Value) (w : Worker) (rs : List Frame)
      → c ≡ length (code f)
      → worker_run_frame p work (at w rs) (frame f c vs) ≡ ok (at w rs)
  unfolding worker_run_frame
  finished_frame work f c vs w rs e =
      let done : frame_is_finished p (frame f c vs) ≡ true = frame_is_finished-eq f c vs e in
      rw done

  -- The frame goes back on the stack unless the opcode was its last.
  abbrev kept : Bool → List Frame → Frame → List Frame
  kept finished rs r = if finished then rs else r ∷ rs

  kept-at :
      (finished : Bool) (w : Worker) (rs : List Frame) (r : Frame)
      → (if finished then at w rs else at w (r ∷ rs)) ≡ at w (kept finished rs r)
  kept-at true w rs r = refl
  kept-at false w rs r = refl

  run_opcode :
      (work : Work) (f c : ℕ) (vs : Array Value) (w : Worker) (rs : List Frame) (op : Opcode)
      (finished : Bool)
      → get_elem? (code f) c ≡ some op
      → (suc c == length (code f)) ≡ finished
      → worker_run_frame p work (at w rs) (frame f c vs)
        ≡ worker_execute_opcode p work
            (at w (kept finished rs (frame f (suc c) vs)))
            finished
            (frame f (suc c) vs)
            op
  unfolding worker_run_frame frame_is_finished frame_fetch_opcode
  run_opcode work f c vs w rs op finished o fin =
      rw (frame_is_finished-lt f c vs (get_elem?-lt (code f) c o), o, load, add-one)
        (rw (fin, frame_is_finished)
          (ap (λ (x : Worker). worker_execute_opcode p work x finished (frame f (suc c) vs) op)
            (kept-at finished w rs (frame f (suc c) vs))))

  -- An opcode that takes the worker from `w` to `w₁` and the variables to `vs'`, and leaves the
  -- frames below alone, is one round: the frame goes on if it has opcodes left.
  round_then :
      {f c : ℕ} {vs vs' : Array Value} {w w₁ w' : Worker} (k : ℕ) (op : Opcode)
      → get_elem? (code f) c ≡ some op
      → ((m : ℕ) (rs : List Frame) (finished : Bool)
          → k ≤ m
          → worker_execute_opcode p
              (worker_work m p)
              (at w (kept finished rs (frame f (suc c) vs)))
              finished
              (frame f (suc c) vs)
              op
            ≡ ok (at w₁ (kept finished rs (frame f (suc c) vs'))))
      → (suc c ≡ length (code f) → w₁ ≡ w')
      → Passes f (suc c) vs' w₁ w'
      → Passes f c vs w w'
  round_then {f} {c} {vs} {vs'} {w} {w₁} {w'} k op o run done rest =
      elim (Bool-cases (suc c == length (code f))) [
        | inl last ↦ record {
          rounds = 1;
          reserve = k;
          passes = λ n m base rs e le b.
              let n' : n ≡ suc m = omega arith in
              rw n' (
                one_round m base f c vs w (at w₁ rs) rs b
                  (run_opcode (worker_work m p) f c vs w rs op true o last ∙ run m rs true le)
                ∙ ap (λ (x : Worker). worker_run_until m p (at x rs) base) (done (ground arith)));
        }
        | inr more ↦ record {
          rounds = suc rest.rounds;
          reserve = rest.reserve + k;
          passes = λ n m base rs e le b.
              let n' : n ≡ suc (rest.rounds + m) = omega arith in
              rw n' (
                one_round (rest.rounds + m) base f c vs w (at w₁ (frame f (suc c) vs' ∷ rs)) rs b (
                  run_opcode (worker_work (rest.rounds + m) p) f c vs w rs op false o more
                  ∙ run (rest.rounds + m) rs false (omega arith))
                ∙ rest.passes (rest.rounds + m) m base rs refl (omega arith) b);
        }
      ]

  set_kept :
      (f c i : ℕ) (vs vs' : Array Value) (w : Worker) (rs : List Frame) (finished : Bool)
      {v : Value} {st : List Value}
      → w.value_stack ≡ v ∷ st
      → array_set vs i (some v) ≡ ok vs'
      → (work : Work)
      → worker_execute_opcode p work
          (at w (kept finished rs (frame f c vs)))
          finished
          (frame f c vs)
          (set_variable i)
        ≡ ok (at (pops w st) (kept finished rs (frame f c vs')))
  unfolding worker_execute_opcode
  set_kept f c i vs vs' w rs true e a work = rw (e, a, stack_pop)
  set_kept f c i vs vs' w rs false e a work = rw (e, a, stack_pop)

  abbrev start : Array Value
  start = array_new variable_array_size

  call_kept :
      (work : Work) (w : Worker) (rs : List Frame) (r : Frame) (finished : Bool) (n : ℕ) {g : ℕ}
      {st : List Value}
      → w.value_stack ≡ function g ∷ st
      → worker_execute_opcode p work (at w (kept finished rs r)) finished r (apply n)
        ≡ ok (at (pops w st) (frame g 0 start ∷ kept finished rs r))
  unfolding worker_execute_opcode
  call_kept work w rs r finished n e = rw (e, stack_pop)

  -- A call leaves the caller's frame below the callee's, or nothing of it at a tail call.
  call_round :
      {f c g n' : ℕ} {vs : Array Value} {w w₁ w' : Worker} {st : List Value}
      → get_elem? (code f) c ≡ some (apply n')
      → w.value_stack ≡ function g ∷ st
      → (suc c ≡ length (code f) → w₁ ≡ w')
      → Passes g 0 (array_new variable_array_size) (pops w st) w₁
      → Passes f (suc c) vs w₁ w'
      → Passes f c vs w w'
  call_round {f} {c} {g} {n'} {vs} {w} {w₁} {w'} {st} o e done callee rest =
      elim (Bool-cases (suc c == length (code f))) [
        | inl last ↦ record {
          rounds = suc callee.rounds;
          reserve = callee.reserve;
          passes = λ n m base rs en le b.
              let k = callee.rounds + m in
              let rounds' : n ≡ suc k = omega arith in
              rw rounds' (
                one_round k base f c vs w (at (pops w st) (frame g 0 start ∷ rs)) rs b (
                  run_opcode (worker_work k p) f c vs w rs (apply n') true o last
                  ∙ call_kept (worker_work k p) w rs (frame f (suc c) vs) true n' e)
                ∙ callee.passes k m base rs refl le b
                ∙ ap (λ (x : Worker). worker_run_until m p (at x rs) base) (done (ground arith)));
        }
        | inr more ↦ record {
          rounds = suc (callee.rounds + rest.rounds);
          reserve = callee.reserve + rest.reserve;
          passes = λ n m base rs en le b.
              let j = rest.rounds + m in
              let k = callee.rounds + j in
              let rounds' : n ≡ suc k = omega arith in
              let back = frame f (suc c) vs in
              rw rounds' (
                one_round k base f c vs w (at (pops w st) (frame g 0 start ∷ back ∷ rs)) rs b (
                  run_opcode (worker_work k p) f c vs w rs (apply n') false o more
                  ∙ call_kept (worker_work k p) w rs back false n' e)
                ∙ callee.passes k j base (back ∷ rs) refl (omega arith) (omega arith)
                ∙ rest.passes j m base rs refl (omega arith) b);
        }
      ]

  -- The theorem's proof, by recursion on the derivation.
  Runs-Passes : {f c : ℕ} {vs : Array Value} {w w' : Worker} → Runs f c vs w w' → Passes f c vs w w'
  unfolding worker_execute_opcode
  Runs-Passes {f} {c} {vs} {w} (returns e) = record {
    rounds = 1;
    reserve = 0;
    passes = λ n m base rs en le b.
        let n' : n ≡ suc m = omega arith in
        rw n' (
          one_round m base f c vs w (at w rs) rs b
            (finished_frame (worker_work m p) f c vs w rs e));
  }
  Runs-Passes (run_literal {v} o r) =
      round_then 0 (literal v) o (λ m rs finished le. refl) (returned r) (Runs-Passes r)
  Runs-Passes (run_get {i} {v} o e r) =
      round_then 0 (get_variable i) o (λ m rs finished le. rw e) (returned r) (Runs-Passes r)
  Runs-Passes (run_set {f} {c} {i} {vs} {vs'} {w} o e a r) =
      round_then 0 (set_variable i) o
        (λ m rs finished le. set_kept f (suc c) i vs vs' w rs finished e a (worker_work m p))
        (returned r) (Runs-Passes r)
  Runs-Passes (run_call o e r r') = call_round o e (returned r') (Runs-Passes r) (Runs-Passes r')
  Runs-Passes (run_apply {n} k o e a r) =
      round_then k (apply n) o (λ m rs finished le. rw (e, stack_pop) (a m _ le)) (returned r)
        (Runs-Passes r)

stops :
    (p : Program) (n : ℕ) (w : Worker) (rs : List Frame)
    → worker_run_until (suc n) p (at w rs) (length rs) ≡ ok (at w rs)
unfolding worker_run_until
stops p n w rs = rw (le→ltb (length rs) (length rs) (omega arith), worker_run_until)

-- The interpreter agrees with the recursive reading. If function `f`, run by that reading from its
-- first opcode, takes the worker from `w` to `w'`, then `run_until`, started with a new frame for
-- `f` on any return stack and given enough rounds, stops with the worker in the state `w'` and the
-- return stack as it was below that frame.
pub run_until-Runs :
    (p : Program) (f : ℕ) {w w' : Worker}
    → Runs p f 0 (array_new variable_array_size) w w'
    → (k : ℕ) × ((rs : List Frame)
        → worker_run_until k p (push_frame (at w rs) (frame_new f)) (length rs) ≡ ok (at w' rs))
unfolding frame_new
run_until-Runs p f {w} {w'} r =
    let ran = Runs-Passes p r in
    let left = suc ran.reserve in
    (
      ran.rounds + left,
      λ rs.
          ran.passes (ran.rounds + left) left (length rs) rs refl (omega arith) (omega arith)
          ∙ stops p ran.reserve w' rs,
    )
