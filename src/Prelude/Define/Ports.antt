-- ===== src/Prelude/Define/Ports.antt =====
-- src/prelude/net.c and src/lang/define.c: a new name in a module, and the ports of a node's text.
use mathlib.Core.Path.{ap₂}
use mathlib.Core.List.{append-nil, append_assoc}
use inet_forth.Std.CString.{
  Bytes, string_equal, string_bernstein_hash, string_ends_with, string_slice, drop,
}
use inet_forth.Std.Lexer.{Token}
use inet_forth.Std.Hash.{Hash, hash_get}
use inet_forth.Std.Hash.Matching.{IsHash}
use inet_forth.Std.Hash.Map.{hash_set_lem, Inserted}
use inet_forth.Std.Hash.Counts.{hash_has-hash_get}
use inet_forth.Net.{Value, PortInfo}
use inet_forth.Core.Mod.{mod_find}
use inet_forth.Lang.{end_name}
use inet_forth.Lang.Locals.{string_equal_iff}
use inet_forth.Prelude.Define.{
  Loader, find_name, define, port_info_from_name, port_infos_of, separator, collect_ports,
}
use inet_forth.Base.{
  Bool, Bool-cases, List, [], ap, arith, false, if◌then◌else◌, inl, inr, is_some, leb, length, ltb,
  map, none, not, ok, refl, some, suc, sym, take, true, zero, ℕ, ◌&&◌, ◌++◌, ◌+◌, ◌-◌, ◌<◌, ◌∙◌,
  ◌∷◌, ◌≡◌,
}

-- The name is new, and the table of the module is sound and can grow once more.
pub record IsNew (l : Loader) (name : Bytes) : Type 0 where
  pub unknown : find_name l name ≡ none
  pub sound : IsHash string_bernstein_hash string_equal string_equal_iff l.scope.mod_of.value_hash
  pub room : l.scope.mod_of.value_hash.prime_index + 1 < 60

abbrev pub with_names : Loader → Hash Bytes Value → Loader
with_names l h =
    let s = l.scope in record l { scope = record s { mod_of = record { value_hash = h } } }

pub define_lem :
    (l : Loader) (name : Bytes) (v : Value)
    → IsNew l name
    → (h : Hash Bytes Value) × (define l name v ≡ ok (with_names l h))
      × ((x : Bytes)
          → hash_get string_bernstein_hash string_equal h x
            ≡ (if string_equal name x then some v else find_name l x))
unfolding define find_name mod_find Inserted
define_lem l name v new =
    let (fresh, h, run, inserted) =
      hash_set_lem string_bernstein_hash string_equal string_equal_iff l.scope.mod_of.value_hash
        name v new.sound new.room in
    let is_fresh : fresh ≡ true =
      inserted.1
      ∙ ap not (hash_has-hash_get string_bernstein_hash string_equal l.scope.mod_of.value_hash name)
      ∙ ap (λ o. not (is_some o)) new.unknown in
    (h, rw run (rw is_fresh refl), λ x. inserted.2 x ∙ rw is_fresh refl)

pub take-drop : (n : ℕ) (cs : Bytes) → take n cs ++ drop n cs ≡ cs
unfolding drop
take-drop zero cs = refl
take-drop (suc n) [] = refl
take-drop (suc n) (c ∷ cs) = ap (λ ds. c ∷ ds) (take-drop n cs)

-- How a port is written.
abbrev pub spelling : PortInfo → Bytes
spelling x = x.name ++ (if x.is_principal then b'!' ∷ [] else [])

pub last_byte :
    (name : Bytes)
    → string_ends_with name (b'!' ∷ []) ≡ true
    → take (length name - 1) name ++ b'!' ∷ [] ≡ name
unfolding string_ends_with
last_byte name e = elim (Bool-cases (ltb (length name) 1)) [
  | inl short ↦ absurd (cc (rw short at e))
  | inr long ↦
      let ends : drop (length name - 1) name ≡ b'!' ∷ [] =
        (string_equal_iff (drop (length name - 1) name) (b'!' ∷ [])).0 (rw long at e) in
      ap (λ ds. take (length name - 1) name ++ ds) (sym ends) ∙ take-drop (length name - 1) name
]

pub port_info_lem :
    (name : Bytes)
    → (x : PortInfo) × (port_info_from_name name ≡ ok x)
      × (spelling x ≡ name)
      × (x.is_principal ≡ string_ends_with name (b'!' ∷ []))
unfolding port_info_from_name string_slice drop
port_info_lem name = elim (Bool-cases (string_ends_with name (b'!' ∷ []))) [
  | inl e ↦
      let first_ok : leb 0 (length name - 1) ≡ true = ground arith in
      let last_ok : leb (length name - 1) (length name) ≡ true = ground arith in
      let all : length name - 1 - 0 ≡ length name - 1 = omega arith in
      (
        record { name = take (length name - 1) name; is_principal = true },
        rw e (rw (first_ok, last_ok) (rw all refl)),
        last_byte name e,
        sym e,
      )
  | inr e ↦ (record { name = name; is_principal = false }, rw e refl, append-nil name, sym e)
]

pub port_infos_lem :
    (names : List Bytes)
    → (xs : List PortInfo) × (port_infos_of names ≡ ok xs)
      × (map spelling xs ≡ names)
      × (map (λ x. x.is_principal) xs ≡ map (λ name. string_ends_with name (b'!' ∷ [])) names)
unfolding port_infos_of
port_infos_lem [] = ([], refl, refl, refl)
port_infos_lem (name ∷ names) =
    let (x, run, spelled, principal) = port_info_lem name in
    let (xs, runs, all_spelled, all_principal) = port_infos_lem names in
    (x ∷ xs, rw run (rw runs refl), ap₂ ◌∷◌ spelled all_spelled, ap₂ ◌∷◌ principal all_principal)

-- The token neither ends nor parts the names of a node.
abbrev pub is_port : Token → Bool
is_port t = not (string_equal t.string end_name) && not (string_equal t.string separator)

abbrev pub all_ports : List Token → Bool
all_ports [] = true
all_ports (t ∷ ts) = is_port t && all_ports ts

abbrev pub strings : List Token → List Bytes
strings [] = []
strings (t ∷ ts) = t.string ∷ strings ts

pub collect_outputs :
    (vs : List Token) (stop : Token) (rest : List Token) (ins outs : List Bytes)
    → all_ports vs ≡ true
    → string_equal stop.string end_name ≡ true
    → collect_ports (vs ++ stop ∷ rest) true ins outs ≡ ok (ins, outs ++ strings vs, rest)
unfolding collect_ports
collect_outputs [] stop rest ins outs plain stops =
    rw (stops, collect_ports) (ap (λ o. ok (ins, o, rest)) (sym (append-nil outs)))
collect_outputs (v ∷ vs) stop rest ins outs plain stops =
    let no_end : string_equal v.string end_name ≡ false = ground arith in
    let no_sep : string_equal v.string separator ≡ false = ground arith in
    rw (no_end, collect_ports)
      (rw (no_sep, collect_ports)
        (collect_outputs vs stop rest ins (outs ++ v.string ∷ []) (ground arith) stops
          ∙ ap (λ o. ok (ins, o, rest)) (append_assoc outs (v.string ∷ []) (strings vs))))

pub collect_inputs :
    (us vs : List Token) (sep stop : Token) (rest : List Token) (ins : List Bytes)
    → all_ports us ≡ true
    → all_ports vs ≡ true
    → string_equal sep.string end_name ≡ false
    → string_equal sep.string separator ≡ true
    → string_equal stop.string end_name ≡ true
    → collect_ports (us ++ sep ∷ vs ++ stop ∷ rest) false ins []
      ≡ ok (ins ++ strings us, strings vs, rest)
unfolding collect_ports
collect_inputs [] vs sep stop rest ins plain plain' goes_on parts stops =
    rw (goes_on, collect_ports)
      (rw (parts, collect_ports)
        (collect_outputs vs stop rest ins [] plain' stops
          ∙ ap (λ i. ok (i, strings vs, rest)) (sym (append-nil ins))))
collect_inputs (u ∷ us) vs sep stop rest ins plain plain' goes_on parts stops =
    let no_end : string_equal u.string end_name ≡ false = ground arith in
    let no_sep : string_equal u.string separator ≡ false = ground arith in
    rw (no_end, collect_ports)
      (rw (no_sep, collect_ports)
        (collect_inputs us vs sep stop rest (ins ++ u.string ∷ []) (ground arith) plain' goes_on
            parts stops
          ∙ ap (λ i. ok (i, strings vs, rest)) (append_assoc ins (u.string ∷ []) (strings us))))
