-- ===== src/Std/Lexer/Ends.antt =====
-- The lexer comes to an end on every text: each step takes a byte at least.
use inet_forth.Std.CString.{Bytes}
use inet_forth.Std.Lexer.{Token, Place, Lexer}
use inet_forth.Base.{List, [], length, ℕ, ◌<◌, ◌∷◌, ◌≤◌}

-- At most `n` bytes are left.
abbrev Left : ℕ → Bytes × Place → Type 0
Left n (rest, p) = length rest ≤ n

abbrev Stopped : ℕ → Bytes × Bytes × Place → Type 0
Stopped n (b, rest, p) = length rest ≤ n

abbrev pub Shorter : ℕ → Lexer → Type 0
Shorter n y = length y.rest < n

-- No delimiter is empty.
abbrev pub AllFull : List Bytes → Type 0
AllFull [] = Unit {0}
AllFull (d ∷ ds) = (0 < length d) × AllFull ds

abbrev lexer : ℕ → Bytes → Place → List Token → Lexer
lexer c cs p ts = record { rest = c ∷ cs; place = p; token_list = ts }
