-- ===== src/Std/Lexer/Located.antt =====
-- src/packages/std/lexer/lexer.c: each step of the lexer puts its token where it stands in the text.
use mathlib.Core.Path.{ap₂}
use mathlib.Core.List.{append_assoc}
use inet_forth.Std.CString.{Bytes, string_starts_with}
use inet_forth.Std.Lexer.{
  TokenKind, generic_token, delimiter_token, string_token, Token, Config, Place, Lexer, lexer_init,
  token_new, step, forward, match_delimiter, ignore_comment, collect_delimiter, collect_string,
  collect_generic, lexer_step, before_nul, at_byte, at_space, at_comment, comment_length,
}
use inet_forth.Std.Lexer.Words.{advance}
use inet_forth.Std.Lexer.Outcomes.{Ensures, holds, Ensures-bind, Ensures-if}
use inet_forth.Std.Lexer.Places.{
  advance-append, Took-trans, forward-Took, skip_space-Took, skip_line-Took, string_loop-Took,
  generic_loop-Took, advance-cursor, advance-lineno, advance-column, newlines, column_after, Took,
}
use inet_forth.Base.{
  Bool-cases, List, Option, Option-cases, [], ap, arith, inl, inr, length, none, ok, refl, some,
  subst, sym, true, ℕ, ◌&&◌, ◌++◌, ◌+◌, ◌-◌, ◌∙◌, ◌∷◌, ◌≡◌, ◌⊎◌,
}

-- A token ends behind `before`, whose lines and columns it counts; but for string tokens, the text
-- just before its end is the token's own, from its start on.
pub record IsLocated (code : Bytes) (t : Token) : Type 0 where
  pub before : Bytes
  pub after : Bytes
  pub split : code ≡ before ++ after
  pub at_end : t.end ≡ length before
  pub line : t.lineno ≡ 1 + newlines before
  pub col : t.column ≡ column_after 1 before
  pub spelled :
      (t.kind ≡ string_token)
      ⊎ ((lead : Bytes) × (before ≡ lead ++ t.string) × (t.start ≡ length lead))

abbrev pub AllLocated : Bytes → List Token → Type 0
AllLocated code [] = Unit {0}
AllLocated code (t ∷ ts) = IsLocated code t × AllLocated code ts

pub AllLocated-snoc :
    (code : Bytes) (ts : List Token) (t : Token)
    → AllLocated code ts
    → IsLocated code t
    → AllLocated code (ts ++ t ∷ [])
AllLocated-snoc code [] t h own = (own, tt)
AllLocated-snoc code (u ∷ ts) t h own = (h.0, AllLocated-snoc code ts t h.1 own)

-- A new token at the place behind `before`.
pub token_new-IsLocated :
    (code before after string : Bytes) (kind : TokenKind) (start : ℕ) (q : Place)
    → code ≡ before ++ after
    → q ≡ advance before lexer_init
    → (kind ≡ string_token) ⊎ ((lead : Bytes) × (before ≡ lead ++ string) × (start ≡ length lead))
    → IsLocated code (token_new string kind start q.cursor q)
unfolding token_new
token_new-IsLocated code before after string kind start q parts place spelled = record {
  before = before;
  after = after;
  split = parts;
  at_end = omega (arith, ap (λ x. x.cursor) place, advance-cursor before lexer_init);
  line = ap (λ x. x.lineno) place ∙ advance-lineno before lexer_init;
  col = ap (λ x. x.column) place ∙ advance-column before lexer_init;
  spelled = spelled;
}

-- The lexer stands where its text is split, and its tokens are located.
pub record IsAt (code : Bytes) (x : Lexer) : Type 0 where
  pub read : Took code lexer_init x.rest x.place
  pub tokens : AllLocated code x.token_list

pub Took-IsAt :
    (code : Bytes) (x : Lexer) {rest : Bytes} {q : Place}
    → IsAt code x
    → Took x.rest x.place rest q
    → IsAt code (record x { rest = rest; place = q })
Took-IsAt code x h t = record { read = Took-trans h.read t; tokens = h.tokens }

pub ignore_comment-IsAt :
    (k : Config) (code : Bytes) (x : Lexer)
    → IsAt code x
    → Ensures (Unit {0}) (IsAt code) (ignore_comment k x)
unfolding ignore_comment
ignore_comment-IsAt k code x h =
    Ensures-bind _ (forward-Took (comment_length k) x.rest x.place)
      λ (text, p) t. holds (Took-IsAt code x h (Took-trans t (skip_line-Took text p)))

-- `forward` over a prefix.
pub forward_prefix :
    (d cs : Bytes) (p : Place)
    → string_starts_with cs d ≡ true
    → (rest : Bytes) × (cs ≡ d ++ rest) × (forward (length d) cs p ≡ ok (rest, advance d p))
unfolding string_starts_with forward advance
forward_prefix [] cs p h = (cs, refl, refl)
forward_prefix (d ∷ ds) [] p h = cc
forward_prefix (d ∷ ds) (c ∷ cs) p h =
    let (rest, parts, run) = forward_prefix ds cs (step c p) (ground arith) in
    let same : c ≡ d = ground arith in
    (rest, ap₂ ◌∷◌ same parts, run ∙ ap (λ x. ok (rest, advance ds (step x p))) same)

pub match_delimiter-starts :
    (ds : List Bytes) (text d : Bytes)
    → match_delimiter ds text ≡ some d
    → string_starts_with text d ≡ true
unfolding match_delimiter
match_delimiter-starts [] text d e = cc
match_delimiter-starts (x ∷ ds) text d e = elim (Bool-cases (string_starts_with text x)) [
  | inl here ↦
      let same : x ≡ d = ap (λ o. get_some d o) (rw here at e) in
      subst (λ y. string_starts_with text y ≡ true) same here
  | inr later ↦ match_delimiter-starts ds text d (rw later at e)
]
  where
    get_some : Bytes → Option Bytes → Bytes
    get_some y none = y
    get_some y (some z) = z

-- A token that was taken off the text just now.
pub spelled_here :
    (code : Bytes) (x : Lexer) (h : IsAt code x) (taken rest : Bytes) (kind : TokenKind)
    → x.rest ≡ taken ++ rest
    → IsLocated code
        (token_new taken kind x.place.cursor (advance taken x.place).cursor (advance taken x.place))
spelled_here code x h taken rest kind parts =
    let lead = h.read.took in
    token_new-IsLocated code (lead ++ taken) rest taken kind x.place.cursor (advance taken x.place)
      (h.read.parts ∙ ap (λ cs. lead ++ cs) parts ∙ sym (append_assoc lead taken rest))
      (ap (advance taken) h.read.place ∙ sym (advance-append lead taken lexer_init))
      (inr (
        lead,
        refl,
        omega (arith, ap (λ p. p.cursor) h.read.place, advance-cursor lead lexer_init),
      ))

pub collect_delimiter-IsAt :
    (code : Bytes) (x : Lexer) (d : Bytes)
    → IsAt code x
    → string_starts_with x.rest d ≡ true
    → Ensures (Unit {0}) (IsAt code) (collect_delimiter x d)
unfolding collect_delimiter token_new
collect_delimiter-IsAt code x d h starts =
    let (rest, parts, run) = forward_prefix d x.rest x.place starts in
    let q = advance d x.place in
    let own = spelled_here code x h d rest delimiter_token parts in
    let ends : q.cursor ≡ x.place.cursor + length d = advance-cursor d x.place in
    rw run (
      holds (record {
        read = Took-trans h.read (record { took = d; parts = parts; place = refl });
        tokens =
            AllLocated-snoc code x.token_list
              (token_new d delimiter_token x.place.cursor (x.place.cursor + length d) q) h.tokens
              (subst (λ n. IsLocated code (token_new d delimiter_token x.place.cursor n q)) ends
                own);
      }))

pub collect_generic-IsAt :
    (k : Config) (code : Bytes) (x : Lexer)
    → IsAt code x
    → Ensures (Unit {0}) (IsAt code) (collect_generic k x)
unfolding collect_generic token_new
collect_generic-IsAt k code x h =
    Ensures-bind _ (generic_loop-Took k.delimiter_list x.rest x.place [])
      λ (buffer, rest, p) (t, same).
        let own : IsLocated code (token_new t.took generic_token x.place.cursor p.cursor p) =
          subst (λ q. IsLocated code (token_new t.took generic_token x.place.cursor q.cursor q))
            (sym t.place) (spelled_here code x h t.took rest generic_token t.parts) in
        let start : x.place.cursor ≡ p.cursor - length t.took =
          omega (arith, ap (λ q. q.cursor) t.place, advance-cursor t.took x.place) in
        let made : IsLocated code
            (token_new t.took generic_token (p.cursor - length t.took) p.cursor p) =
          subst (λ n. IsLocated code (token_new t.took generic_token n p.cursor p)) start own in
        holds (record {
          read = Took-trans h.read t;
          tokens =
              AllLocated-snoc code x.token_list
                (token_new buffer generic_token (p.cursor - length buffer) p.cursor p) h.tokens
                (subst
                  (λ b. IsLocated code (token_new b generic_token (p.cursor - length b) p.cursor p))
                  (sym same) made);
        })

pub collect_string-IsAt :
    (code : Bytes) (x : Lexer) → IsAt code x → Ensures (Unit {0}) (IsAt code) (collect_string x)
unfolding collect_string token_new
collect_string-IsAt code x h = Ensures-bind _ (forward-Took 1 x.rest x.place) λ (text, p) t.
    Ensures-bind _ (string_loop-Took text p []) λ (b, stop, q) u.
      Ensures-bind _ (forward-Took 1 stop q) λ (rest, r) v.
        let read : Took code lexer_init stop q = Took-trans h.read (Took-trans t u) in
        let s : Bytes = before_nul b in
        holds (record {
          read = Took-trans read v;
          tokens =
              AllLocated-snoc code x.token_list
                (token_new s string_token (q.cursor - length s) q.cursor q) h.tokens
                (token_new-IsLocated code read.took stop s string_token (q.cursor - length s) q
                  read.parts read.place (inl refl));
        })

pub lexer_step-IsAt :
    (k : Config) (code : Bytes) (x : Lexer)
    → IsAt code x
    → Ensures (Unit {0}) (IsAt code) (lexer_step k x)
unfolding lexer_step
lexer_step-IsAt k code x h =
    Ensures-if (at_space x.rest) (holds (Took-IsAt code x h (skip_space-Took x.rest x.place))) (
      Ensures-if (at_comment k x.rest) (ignore_comment-IsAt k code x h)
        (elim (Option-cases (match_delimiter k.delimiter_list x.rest)) [
          | inr (d, found) ↦ rw found (
              collect_delimiter-IsAt code x d h
                (match_delimiter-starts k.delimiter_list x.rest d found))
          | inl none_found ↦ rw none_found (
              Ensures-if (k.enable_string && at_byte b'"' x.rest) (collect_string-IsAt code x h)
                (collect_generic-IsAt k code x h))
        ]))
