-- ===== src/Hercules/Roots.antt =====
-- internal/data/sources/hercules/{skill_tree.go, job_db.go}: the loop over the named entries of a
-- file, `Name: { ... }`, which the three readers share. It runs on fuel, which `read_roots`
-- gives it by the length of the source, and which each value takes part of.
pub mod Ends
pub mod Keeps
use mathlib.Core.Logic.{ite}
use ro_builder.Prelude.{ℕ, zero, suc, ◌+◌, ◌*◌, length, Result, ok, err, ◌>>=◌, tagged}
use ro_builder.Hercules.Cursor.{Bytes}
use ro_builder.Hercules.Tokenizer.{
  TokenType, TokenType-discrete, Token, Tokenizer, eof, ident, colon, new_tokenizer, peek, next,
}
use ro_builder.Hercules.Parser.{
  Value, Fields, object, ParseError, out_of_fuel, lift, expect, parse_value,
}

-- `not_a_root` is another token than a name; `refused` is the reader's own error on an entry.
pub data RootError (E : Type 0) : Type 0 where
  syntax : ParseError → RootError E
  not_a_root : Token → RootError E
  not_an_object : Bytes → Value → RootError E
  refused : Bytes → E → RootError E

module _ {S E : Type 0} (enter : Bytes → Fields → S → Result E S) where
  -- The end of a round: the entry `name` with its value.
  unfoldable pub enter_root : Bytes → Value → S → Result (RootError E) S
  enter_root name (object m) s = tagged (refused name) (enter name m s)
  enter_root name v s = err (not_an_object name v)

  unfoldable pub read_roots_from : ℕ → S → Tokenizer → Result (RootError E) S
  unfolding enter_root expect parse_value
  read_roots_from zero s t = err (syntax out_of_fuel)
  read_roots_from (suc n) s t = do
    r ← tagged syntax (lift (peek t))
    ite (TokenType-discrete r.0.typ eof) (ok s) (
        ite (TokenType-discrete r.0.typ ident)
          (do
            name ← tagged syntax (lift (next r.1))
            c ← tagged syntax (expect colon name.1)
            v ← tagged syntax (parse_value n c.1)
            entered ← enter_root name.0.val v.0 s
            read_roots_from n entered v.1)
          (err (not_a_root r.0)))

  unfoldable pub read_roots : S → Bytes → Result (RootError E) S
  unfolding read_roots_from new_tokenizer peek next
  read_roots s src = read_roots_from (2 * length src + 2) s (new_tokenizer src)
