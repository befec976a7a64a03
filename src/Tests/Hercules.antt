-- ===== src/Tests/Hercules.antt =====
-- The libconfig reader on small sources.
use Prim.Native.Char.{code}
use ro_builder.Prelude.{true, [], ◌∷◌, ◌++◌, String, ok, err, ◌≡◌, ◌≢◌, refl, arith}
use ro_builder.Prelude.Int.{pos, negsuc}
use ro_builder.Hercules.Cursor.{Bytes, Pos, at, after_all, skip}
use ro_builder.Hercules.Tokenizer.{
  TokenType-discrete, token, ident, string, heredoc, read, read_string, read_heredoc,
}
use ro_builder.Hercules.Tokenizer.Strings.{escaped, read_string-escaped, read_heredoc-Open}
use ro_builder.Hercules.Tokenizer.Skips.{AtToken, skip-AtToken}
use ro_builder.Hercules.Tokenizer.Reads.{Reads, read-Reads}
use ro_builder.Hercules.Parser.{
  number, text, boolean, list, object, nil, cons, end, field, out_of_fuel, parse_value, value_case,
  object_case, items_case, parse_file, atoi,
}
use ro_builder.Hercules.Parser.Fuel.{parse_file-ends}

abbrev codes : String → Bytes
codes String.[] = []
codes (String.◌∷◌ c s) = code c ∷ codes s

abbrev origin : Pos
origin = record { line = 1; col = 1 }

abbrev source : Bytes
source = codes "db: ( // one entry\n { Id: 5 Name: \"a\\\"b\", Off: [-7, true]}, )"

source_parses :
    parse_file source
    ≡ ok (
        cons
          (object (
            field (codes "Id") (number (pos 5)) (
              field (codes "Name") (text (codes "a\"b")) (
                field
                  (codes "Off")
                  (list (cons (number (negsuc 6)) (cons (boolean true) nil)))
                  end))))
          nil)
unfolding parse_file parse_value value_case object_case items_case read TokenType-discrete atoi
source_parses = refl

parse_file-ends_example : parse_file source ≢ err out_of_fuel
parse_file-ends_example = parse_file-ends source

read_string-escaped_example :
    read_string (b'"' ∷ (escaped (codes "a\n\"b") ++ (b'"' ∷ codes ", c"))) origin
    ≡ ok (
      token string (codes "a\n\"b") origin,
      at (codes ", c") (after_all (b'"' ∷ (escaped (codes "a\n\"b") ++ (b'"' ∷ []))) origin),
    )
read_string-escaped_example = read_string-escaped (codes "a\n\"b") (codes ", c") origin

read_heredoc-Open_example :
    read_heredoc (b'<' ∷ b'"' ∷ (codes "bonus \"x\";\n" ++ (b'"' ∷ b'>' ∷ codes ","))) origin
    ≡ ok (
      token heredoc (codes "bonus \"x\";\n") origin,
      at
          (codes ",")
          (after_all (b'<' ∷ b'"' ∷ (codes "bonus \"x\";\n" ++ (b'"' ∷ b'>' ∷ []))) origin),
    )
read_heredoc-Open_example =
    read_heredoc-Open (codes "bonus \"x\";\n") (codes ",") origin (ground arith)

skip-AtToken_example : AtToken (skip 9 (codes " /* */ ab") origin).rest
skip-AtToken_example = skip-AtToken 9 (codes " /* */ ab") origin (omega arith)

read-Reads_example :
    Reads
      (at (codes " id: 1") origin)
      (token ident (codes "id") (after_all (codes " ") origin))
      (at (codes ": 1") (after_all (codes " id") origin))
unfolding read
read-Reads_example = read-Reads (at (codes " id: 1") origin) refl
