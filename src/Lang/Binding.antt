-- ===== src/Lang/Binding.antt =====
-- src/lang/compile_one.c: opcodes that are added one by one, and those of `compile_bind`.
use mathlib.Core.List.{append_assoc}
use inet_forth.Std.CString.{Bytes, string_equal, string_bernstein_hash}
use inet_forth.Std.Array.{Array, array_set}
use inet_forth.Std.Hash.{Hash, hash_set}
use inet_forth.Net.{Value}
use inet_forth.Core.{Opcode, set_variable, Worker, Program}
use inet_forth.Core.Machine.Calls.{Runs, run_set, code, pops}
use inet_forth.Lang.{index_or_zero, Draft, function_add_opcode, bind_locals}
use inet_forth.Lang.Locals.{
  Names, bound, unbound, held_in, Locals, lookup, has_local, has_local-lookup, rebind, bind_new,
}
use inet_forth.Base.{
  Bool, List, Option, [], ap, arith, false, get_elem?, is_some, length, length-append, none, ok,
  refl, set, some, subst, suc, sym, true, ℕ, ◌++◌, ◌+◌, ◌∙◌, ◌∷◌, ◌≡◌, ◌≤◌,
}

-- The names take the values on top of the stack, in the order in which the loop pops them.
abbrev pub take_names : Names → List Bytes → List Value → Option (Names × List Value)
take_names ρ [] st = some (ρ, st)
take_names ρ (x ∷ xs) [] = none
take_names ρ (x ∷ xs) (v ∷ st) = take_names (bound ρ x v) xs st

module _ (p : Program) where
  -- The draft `last` has the opcodes of `self` and more, and whatever function has the opcodes of `last`
  -- runs from where `self` ends to its own end.
  pub record Extends (self last : Draft) (vs : Array Value) (w w' : Worker) : Type 0 where
    pub more : List Opcode
    pub parts : last.opcode_array ≡ self.opcode_array ++ more
    pub runs : (g : ℕ) → code p g ≡ last.opcode_array → Runs p g (length self.opcode_array) vs w w'

  get_elem?-middle :
      (us : List Opcode) (op : Opcode) (more : List Opcode)
      → get_elem? ((us ++ op ∷ []) ++ more) (length us) ≡ some op
  get_elem?-middle [] op more = refl
  get_elem?-middle (u ∷ us) op more = get_elem?-middle us op more

  -- One opcode more in front.
  pub add_opcode-Extends :
      (self self₁ last : Draft) (op : Opcode) (vs vs₁ : Array Value) (w w₁ w' : Worker)
      → self₁.opcode_array ≡ self.opcode_array ++ op ∷ []
      → ((g : ℕ)
          → get_elem? (code p g) (length self.opcode_array) ≡ some op
          → Runs p g (suc (length self.opcode_array)) vs₁ w₁ w'
          → Runs p g (length self.opcode_array) vs w w')
      → Extends self₁ last vs₁ w₁ w'
      → Extends self last vs w w'
  add_opcode-Extends self self₁ last op vs vs₁ w w₁ w' added step e =
      let parts : last.opcode_array ≡ (self.opcode_array ++ op ∷ []) ++ e.more =
        e.parts ∙ ap (λ ops. ops ++ e.more) added in
      record {
        more = op ∷ e.more;
        parts = parts ∙ append_assoc self.opcode_array (op ∷ []) e.more;
        runs = λ g placed.
            let here : get_elem? (code p g) (length self.opcode_array) ≡ some op =
              ap (λ ops. get_elem? ops (length self.opcode_array)) (placed ∙ parts)
              ∙ get_elem?-middle self.opcode_array op e.more in
            let next : length self₁.opcode_array ≡ suc (length self.opcode_array) =
              ap length added ∙ omega (arith, length-append self.opcode_array (op ∷ [])) in
            step g here (subst (λ c. Runs p g c vs₁ w₁ w') next (e.runs g placed));
      }

  bind_locals_old :
      (self : Draft) (index i : ℕ) (x : Bytes) (xs : List Bytes)
      → has_local self.local_index_hash x ≡ true
      → lookup self.local_index_hash x ≡ some i
      → bind_locals self index (x ∷ xs)
        ≡ bind_locals (function_add_opcode self (set_variable i)) index xs
  unfolding bind_locals
  bind_locals_old self index i x xs has at_x =
      rw (has, bind_locals)
        (ap (λ o. bind_locals (function_add_opcode self (set_variable (index_or_zero o))) index xs)
          at_x)

  bind_locals_new :
      (self : Draft) (index : ℕ) (x : Bytes) (xs : List Bytes) (fresh : Bool) (h : Hash Bytes ℕ)
      → has_local self.local_index_hash x ≡ false
      → hash_set string_bernstein_hash string_equal self.local_index_hash x index ≡ ok (fresh, h)
      → bind_locals self index (x ∷ xs)
        ≡ bind_locals
            (function_add_opcode (record self { local_index_hash = h }) (set_variable index))
            (index + 1)
            xs
  unfolding bind_locals
  bind_locals_new self index x xs fresh h has set =
      rw (has, bind_locals) (rw (set, bind_locals) refl)

  -- The opcodes of `compile_bind` set the variables of the names to the values on top of the stack.
  pub bind_locals-Extends :
      (xs : List Bytes) (n index : ℕ) (self : Draft) (ρ : Names) (vs : Array Value) (w : Worker)
      (st : List Value) {out : Names × List Value}
      → Locals self.local_index_hash ρ vs
      → index ≡ self.local_index_hash.length
      → self.local_index_hash.prime_index + (length xs + n) ≤ 58
      → self.local_index_hash.length + (length xs + n) ≤ 58
      → take_names ρ xs st ≡ some out
      → (self₁ : Draft) × (vs₁ : Array Value) × (bind_locals self index xs ≡ ok self₁)
        × Locals self₁.local_index_hash out.0 vs₁
        × (self₁.local_index_hash.prime_index + n ≤ 58)
        × (self₁.local_index_hash.length + n ≤ 58)
        × ((last : Draft) (w' : Worker)
            → Extends self₁ last vs₁ (pops w out.1) w'
            → Extends self last vs (pops w st) w')
  unfolding bind_locals function_add_opcode
  bind_locals-Extends [] n index self ρ vs w st {out} l at_end room slots bind =
      let same : (ρ, st) ≡ out = ap (from_some (ρ, st)) bind in
      (
        self,
        vs,
        refl,
        subst (λ o. Locals self.local_index_hash o.0 vs) same l,
        omega arith,
        omega arith,
        λ last w' e. subst (λ o. Extends self last vs (pops w o.1) w') (sym same) e,
      )
    where
      from_some : Names × List Value → Option (Names × List Value) → Names × List Value
      from_some d none = d
      from_some d (some o) = o
  bind_locals-Extends (x ∷ xs) n index self ρ vs w [] l at_end room slots bind = cc
  bind_locals-Extends (x ∷ xs) n index self ρ vs w (v ∷ st) {out} l at_end room slots bind =
      elim (l.held x) [
        | held_in i u at_x is_u below stored ↦
            let has : has_local self.local_index_hash x ≡ true =
              has_local-lookup self.local_index_hash x ∙ ap is_some at_x in
            let (vs₁, set, l₁) = rebind self.local_index_hash ρ vs x v i l at_x (omega arith) in
            let (self₂, vs₂, run, l₂, room₂, slots₂, runs) =
              bind_locals-Extends xs n index (function_add_opcode self (set_variable i))
                (bound ρ x v) vs₁ w st l₁ at_end (omega arith) (omega arith) bind in
            (
              self₂,
              vs₂,
              bind_locals_old self index i x xs has at_x ∙ run,
              l₂,
              room₂,
              slots₂,
              λ last w' e.
                  add_opcode-Extends self _ last (set_variable i) vs vs₁ (pops w (v ∷ st))
                    (pops w st) w' refl (λ g here r. run_set here refl set r) (runs last w' e),
            )
        | unbound at_x is_none ↦
            let has : has_local self.local_index_hash x ≡ false =
              has_local-lookup self.local_index_hash x ∙ ap is_some at_x in
            let (fresh, h, set, primes, count, vs₁, written, l₁) =
              bind_new self.local_index_hash ρ vs x v l at_x (omega arith) (omega arith) in
            let (self₂, vs₂, run, l₂, room₂, slots₂, runs) =
              bind_locals-Extends xs n (index + 1)
                (function_add_opcode (record self { local_index_hash = h }) (set_variable index))
                (bound ρ x v) vs₁ w st l₁ (omega arith) (omega arith) (omega arith) bind in
            (
              self₂,
              vs₂,
              bind_locals_new self index x xs fresh h has (
                    ap (λ i. hash_set string_bernstein_hash string_equal self.local_index_hash x i)
                      at_end
                    ∙ set)
                  ∙ run,
              l₂,
              room₂,
              slots₂,
              λ last w' e.
                  add_opcode-Extends self _ last (set_variable index) vs vs₁ (pops w (v ∷ st))
                    (pops w st) w' refl
                    (λ g here r.
                      run_set here refl (ap (λ i. array_set vs i (some v)) at_end ∙ written) r)
                    (runs last w' e),
            )
      ]
